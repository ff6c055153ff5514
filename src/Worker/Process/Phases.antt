-- ===== src/Worker/Process/Phases.antt =====
-- The phases of one message, from its run to its acknowledgement, and which effects each allows.
use mathlib.Core.List.{append-nil}
use mathlib.Core.Path.{subst}
use model_lib.Base.{◌≡◌, Bool, true, false, not, ◌||◌, ◌&&◌, List, [], ◌∷◌, ◌++◌, All}
use model_lib.Base.Eq.{◌==◌, string_eq}
use model_lib.Worker.Effects.{
  Outcome, returns, raises, terminal, Effect, lock_released, read_thread, graph_ran,
  dispatch_published, breakdown_handled, acknowledged, began, ledger_terminal, thread_terminal,
  failed, Exec, call, ensuring, ◌>>=◌,
}
use model_lib.Worker.Emits.{Emits}

-- What is still to be done for a message whose status is approved, and whether the ledger's status
-- was approved when the message began.
pub record Duties : Type 0 where
  pub publishes : Bool
  pub rescues : Bool
  pub began_approved : Bool

-- The ledger holds no terminal status yet; or it holds one, which is approved or not, and the
-- dispatch has been published or not and the vehicle rescued or not; or the message is acknowledged.
pub data Phase : Type 0 where
  running : Phase
  recorded : Bool → Bool → Bool → Phase
  done : Phase

abbrev pub IsRunning : Phase → Type 0
IsRunning running = Unit
IsRunning _ = ⊥

abbrev pub published : Phase → Phase
published (recorded a p r) = recorded a true r
published phase = phase

abbrev pub rescued : Phase → Phase
rescued (recorded a p r) = recorded a p true
rescued phase = phase

module _ (d : Duties) where
  abbrev pub MayPublish : Phase → Type 0
  MayPublish (recorded a p r) = (d.publishes ≡ true) × (a ≡ true)
  MayPublish _ = ⊥

  abbrev pub MayRescue : Phase → Type 0
  MayRescue (recorded a p r) = (d.rescues ≡ true) × (a ≡ true) × ((not d.publishes || p) ≡ true)
  MayRescue _ = ⊥

  abbrev pub MayAcknowledge : Phase → Type 0
  MayAcknowledge (recorded a p r) =
      ((not (a && d.publishes) || p) ≡ true) × ((not (a && d.rescues) || r) ≡ true)
  MayAcknowledge _ = ⊥

  -- From a phase on, each effect comes when it may. An attempt that failed is allowed when the effect
  -- is, and does nothing, except that a failed acknowledgement may have reached the queue.
  abbrev pub Ordered : Phase → List Effect → Type 0
  Ordered phase [] = Unit
  Ordered phase (began terminal ∷ es) =
      IsRunning phase × Ordered (recorded d.began_approved false false) es
  Ordered phase (ledger_terminal s ∷ es) =
      IsRunning phase × Ordered (recorded (s == "APPROVED") false false) es
  Ordered phase (graph_ran ∷ es) = IsRunning phase × Ordered phase es
  Ordered phase (dispatch_published ∷ es) = MayPublish phase × Ordered (published phase) es
  Ordered phase (breakdown_handled ∷ es) = MayRescue phase × Ordered (rescued phase) es
  Ordered phase (acknowledged ∷ es) = MayAcknowledge phase × Ordered done es
  Ordered phase (failed (ledger_terminal s) ∷ es) = IsRunning phase × Ordered phase es
  Ordered phase (failed graph_ran ∷ es) = IsRunning phase × Ordered phase es
  Ordered phase (failed dispatch_published ∷ es) = MayPublish phase × Ordered phase es
  Ordered phase (failed breakdown_handled ∷ es) = MayRescue phase × Ordered phase es
  Ordered phase (failed acknowledged ∷ es) = MayAcknowledge phase × Ordered done es
  Ordered phase (e ∷ es) = Ordered phase es

-- An effect that leaves the phase as it is and is in order while the graph may run.
abbrev pub Calm : Effect → Type 0
Calm dispatch_published = ⊥
Calm breakdown_handled = ⊥
Calm acknowledged = ⊥
Calm (began st) = ⊥
Calm (ledger_terminal s) = ⊥
Calm (failed e) = Calm e
Calm _ = Unit

-- An effect that is in order whatever has happened.
abbrev pub Passive : Effect → Type 0
Passive read_thread = Unit
Passive (thread_terminal s) = Unit
Passive (failed read_thread) = Unit
Passive (failed (thread_terminal s)) = Unit
Passive _ = ⊥

module _ (d : Duties) where
  Ordered-Calm :
      (es ds : List Effect) → All Calm es → Ordered d running ds → Ordered d running (es ++ ds)
  Ordered-Calm [] ds h k = k
  Ordered-Calm (dispatch_published ∷ es) ds h k = absurd h.0
  Ordered-Calm (breakdown_handled ∷ es) ds h k = absurd h.0
  Ordered-Calm (acknowledged ∷ es) ds h k = absurd h.0
  Ordered-Calm (began st ∷ es) ds h k = absurd h.0
  Ordered-Calm (ledger_terminal s ∷ es) ds h k = absurd h.0
  Ordered-Calm (failed dispatch_published ∷ es) ds h k = absurd h.0
  Ordered-Calm (failed breakdown_handled ∷ es) ds h k = absurd h.0
  Ordered-Calm (failed acknowledged ∷ es) ds h k = absurd h.0
  Ordered-Calm (failed (ledger_terminal s) ∷ es) ds h k = absurd h.0
  Ordered-Calm (failed graph_ran ∷ es) ds h k = (tt, Ordered-Calm es ds h.1 k)
  Ordered-Calm (failed _ ∷ es) ds h k = Ordered-Calm es ds h.1 k
  Ordered-Calm (graph_ran ∷ es) ds h k = (tt, Ordered-Calm es ds h.1 k)
  Ordered-Calm (_ ∷ es) ds h k = Ordered-Calm es ds h.1 k

  Ordered-Passive :
      (phase : Phase) (es ds : List Effect)
      → All Passive es
      → Ordered d phase ds
      → Ordered d phase (es ++ ds)
  Ordered-Passive phase [] ds h k = k
  Ordered-Passive phase (read_thread ∷ es) ds h k = Ordered-Passive phase es ds h.1 k
  Ordered-Passive phase (thread_terminal s ∷ es) ds h k = Ordered-Passive phase es ds h.1 k
  Ordered-Passive phase (failed read_thread ∷ es) ds h k = Ordered-Passive phase es ds h.1 k
  Ordered-Passive phase (failed (thread_terminal s) ∷ es) ds h k = Ordered-Passive phase es ds h.1 k
  Ordered-Passive phase (failed _ ∷ es) ds h k = absurd h.0
  Ordered-Passive phase (_ ∷ es) ds h k = absurd h.0

  Ordered-append :
      (es ds : List Effect) (phase : Phase)
      → Ordered d phase es
      → ((later : Phase) → Ordered d later ds)
      → Ordered d phase (es ++ ds)
  Ordered-append [] ds phase h k = k phase
  Ordered-append (began terminal ∷ es) ds phase h k = (h.0, Ordered-append es ds _ h.1 k)
  Ordered-append (began _ ∷ es) ds phase h k = Ordered-append es ds phase h k
  Ordered-append (ledger_terminal s ∷ es) ds phase h k = (h.0, Ordered-append es ds _ h.1 k)
  Ordered-append (graph_ran ∷ es) ds phase h k = (h.0, Ordered-append es ds _ h.1 k)
  Ordered-append (dispatch_published ∷ es) ds phase h k = (h.0, Ordered-append es ds _ h.1 k)
  Ordered-append (breakdown_handled ∷ es) ds phase h k = (h.0, Ordered-append es ds _ h.1 k)
  Ordered-append (acknowledged ∷ es) ds phase h k = (h.0, Ordered-append es ds _ h.1 k)
  Ordered-append (failed (ledger_terminal s) ∷ es) ds phase h k =
      (h.0, Ordered-append es ds _ h.1 k)
  Ordered-append (failed graph_ran ∷ es) ds phase h k = (h.0, Ordered-append es ds _ h.1 k)
  Ordered-append (failed dispatch_published ∷ es) ds phase h k = (h.0, Ordered-append es ds _ h.1 k)
  Ordered-append (failed breakdown_handled ∷ es) ds phase h k = (h.0, Ordered-append es ds _ h.1 k)
  Ordered-append (failed acknowledged ∷ es) ds phase h k = (h.0, Ordered-append es ds _ h.1 k)
  Ordered-append (failed _ ∷ es) ds phase h k = Ordered-append es ds phase h k
  Ordered-append (_ ∷ es) ds phase h k = Ordered-append es ds phase h k

  Ordered-released : (o : Outcome Bool) (phase : Phase) → Ordered d phase (call lock_released o).1
  Ordered-released (returns x) phase = tt
  Ordered-released raises phase = tt

  pub Ordered-ensuring {ℓ} :
      {A : Type ℓ} (m : Exec A) (o : Outcome Bool)
      → Ordered d running m.1
      → Ordered d running (ensuring m (call lock_released o)).1
  Ordered-ensuring m o h =
      Ordered-append m.1 (call lock_released o).1 running h (Ordered-released o)

module _ {ℓ κ} {A : Type ℓ} {B : Type κ} (d : Duties) where
  pub Ordered-bind :
      (m : Exec A) (f : A → Exec B)
      → Emits Calm m
      → ((a : A) → Ordered d running (f a).1)
      → Ordered d running (m >>= f).1
  Ordered-bind (returns a, es) f h k = Ordered-Calm d es (f a).1 h.at (k a)
  Ordered-bind (raises, es) f h k =
      subst (Ordered d running) (append-nil es) (Ordered-Calm d es [] h.at tt)

  pub Ordered-bind-Passive :
      (phase : Phase) (m : Exec A) (f : A → Exec B)
      → Emits Passive m
      → ((a : A) → Ordered d phase (f a).1)
      → Ordered d phase (m >>= f).1
  Ordered-bind-Passive phase (returns a, es) f h k = Ordered-Passive d phase es (f a).1 h.at (k a)
  Ordered-bind-Passive phase (raises, es) f h k =
      subst (Ordered d phase) (append-nil es) (Ordered-Passive d phase es [] h.at tt)
