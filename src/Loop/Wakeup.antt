-- ===== src/Loop/Wakeup.antt =====
-- The threads that use one event loop, as interleaved steps. A thread that calls `AsyncCall` first adds
-- the functor, under the lock, and later writes its byte into the socket pair. The loop's thread wakes
-- when there is a byte, receives until there is none, takes the functors, under the lock, and runs
-- them.
use tiny_game_server.Base.{
  ℕ, suc, ◌+◌, ◌-◌, ◌≤◌, ◌<◌, ◌≡◌, ◌≢◌, refl, sym, ap, ◌∙◌, List, [], ◌∷◌, ◌++◌, ◌⊎◌, inl, inr,
  arith, append_assoc, append-nil,
}

-- Where the loop's thread stands.
pub data Phase (T : Type 0) : Type 0 where
  waiting receiving taking : Phase T
  calling : List T → Phase T  -- the functors that it took and has not run yet

pub record Threads (T : Type 0) : Type 0 where
  pub pending : List T
  pub notifying : ℕ  -- threads between the two halves of `AsyncCall`
  pub signals : ℕ
  pub phase : Phase T
  pub given : List T  -- all functors that were added, in order
  pub done : List T  -- all functors that were run, in order

module _ {T : Type 0} where
  unfoldable pub started : Threads T
  started = record {
    pending = [];
    notifying = 0;
    signals = 0;
    phase = waiting;
    given = [];
    done = [];
  }

  pub data Step (s : Threads T) : Threads T → Type 0 where
    add :
        (t : T)
        → Step s (record s {
          pending = s.pending ++ (t ∷ []);
          notifying = suc s.notifying;
          given = s.given ++ (t ∷ []);
        })
    notify :
        0 < s.notifying → Step s (record s { notifying = s.notifying - 1; signals = suc s.signals })
    wake : s.phase ≡ waiting → 0 < s.signals → Step s (record s { phase = receiving })
    -- `recv` takes some of the bytes that are there.
    receive :
        (n : ℕ)
        → s.phase ≡ receiving
        → 0 < n
        → n ≤ s.signals
        → Step s (record s { signals = s.signals - n })
    received : s.phase ≡ receiving → s.signals ≡ 0 → Step s (record s { phase = taking })
    take : s.phase ≡ taking → Step s (record s { pending = []; phase = calling s.pending })
    run :
        (t : T) (ts : List T)
        → s.phase ≡ calling (t ∷ ts)
        → Step s (record s { phase = calling ts; done = s.done ++ (t ∷ []) })
    finish : s.phase ≡ calling [] → Step s (record s { phase = waiting })

  pub data Reach : Threads T → Type 0 where
    here : Reach started
    next : {s u : Threads T} → Reach s → Step s u → Reach u

  abbrev pub in_hand : Phase T → List T
  in_hand (calling ts) = ts
  in_hand waiting = []
  in_hand receiving = []
  in_hand taking = []

  -- The loop's thread is on its way to take the functors.
  abbrev pub IsAwake : Phase T → Type 0
  IsAwake receiving = Unit {0}
  IsAwake taking = Unit {0}
  IsAwake waiting = ⊥
  IsAwake (calling ts) = ⊥

  -- Each functor was run, is in hand or waits; and if one waits the loop will see a byte.
  pub record Inv (s : Threads T) : Type 0 where
    pub in_order : s.given ≡ s.done ++ (in_hand s.phase ++ s.pending)
    pub noticed : s.pending ≢ [] → (0 < s.signals + s.notifying) ⊎ IsAwake s.phase

  Step-Inv : {s u : Threads T} → Step s u → Inv s → Inv u
  Step-Inv {s} (add t) v = record {
    in_order =
        ap (λ g. g ++ (t ∷ [])) v.in_order
        ∙ append_assoc s.done (in_hand s.phase ++ s.pending) (t ∷ [])
        ∙ ap (◌++◌ s.done) (append_assoc (in_hand s.phase) s.pending (t ∷ []));
    noticed = λ _. inl (omega arith);
  }
  Step-Inv {s} (notify h) v = record { in_order = v.in_order; noticed = λ _. inl (omega arith) }
  Step-Inv {s} (wake p h) v = record { in_order = rw p at v.in_order; noticed = λ _. inr tt }
  Step-Inv {s} (receive n p h k) v = record { in_order = v.in_order; noticed = λ _. inr (rw p tt) }
  Step-Inv {s} (received p h) v = record { in_order = rw p at v.in_order; noticed = λ _. inr tt }
  Step-Inv {s} (take p) v = record {
    in_order = (rw p at v.in_order) ∙ ap (◌++◌ s.done) (sym (append-nil s.pending));
    noticed = λ h. absurd (h refl);
  }
  Step-Inv {s} (run t ts p) v = record {
    in_order = (rw p at v.in_order) ∙ sym (append_assoc s.done (t ∷ []) (ts ++ s.pending));
    noticed = rw p at v.noticed;
  }
  Step-Inv {s} (finish p) v = record { in_order = rw p at v.in_order; noticed = rw p at v.noticed }

  Reach-Inv : {s : Threads T} → Reach s → Inv s
  unfolding started
  Reach-Inv here = record { in_order = refl; noticed = λ h. absurd (h refl) }
  Reach-Inv (next r st) = Step-Inv st (Reach-Inv r)

  pub data Steps (s : Threads T) : Threads T → Type 0 where
    none : Steps s s
    more : {t u : Threads T} → Steps s t → Step t u → Steps s u

  -- In every state that the threads of a loop reach, the functors that were added are, in order,
  -- those that were run, those that the loop's thread holds and those that wait.
  pub Reach-in_order :
      {s : Threads T} → Reach s → s.given ≡ s.done ++ (in_hand s.phase ++ s.pending)
  Reach-in_order r = (Reach-Inv r).in_order

  -- No wake-up is lost: in every state that the threads reach, if functors wait while the loop's
  -- thread sleeps and no other thread is about to write its byte, then the loop's thread has steps
  -- after which it is about to run just these functors, and it runs no other before.
  pub Reach-serves :
      (s : Threads T)
      → Reach s
      → s.phase ≡ waiting
      → s.notifying ≡ 0
      → s.pending ≢ []
      → (u : Threads T) × Steps s u × (u.phase ≡ calling s.pending) × (u.done ≡ s.done)
  Reach-serves s r p q h = (
    record s { signals = s.signals - s.signals; pending = []; phase = calling s.pending },
    more
        (more (more (more none (wake p ringing)) (receive s.signals refl ringing (omega arith)))
          (received refl (omega arith)))
        (take refl),
    refl,
    refl,
  )
    where
      ringing : 0 < s.signals
      ringing = elim ((Reach-Inv r).noticed h) [ inl a ↦ omega arith | inr b ↦ absurd (rw p at b) ]
