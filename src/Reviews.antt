-- ===== src/Reviews.antt =====
-- backend/app/reviews: the decision of a reviewer on a dispatch.
pub mod Decide
