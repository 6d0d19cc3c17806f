-- ===== src/Loop/Queue.antt =====
-- The functors are served in the order in which they were given to the loop.
use tiny_game_server.Base.{
  ℕ, zero, suc, ◌≡◌, refl, sym, ap, ◌∙◌, List, [], ◌∷◌, ◌++◌, length, append-nil, append_assoc,
}
use tiny_game_server.Loop.{Loop, async_call, async_calls, call, call_all, process}

module _ {T W : Type 0} (exec : T → W → W × List T) where
  -- A queue that is served one functor at a time.
  pub serve : Loop T W → Loop T W
  serve l = elim l.pending [ [] ↦ l | t ∷ ts ↦ call exec t (record l { pending = ts }) ]

  pub serve_times : ℕ → Loop T W → Loop T W
  serve_times zero l = l
  serve_times (suc n) l = serve_times n (serve l)

  -- With other functors in front of those that wait.
  abbrev behind : List T → Loop T W → Loop T W
  behind ts l = record l { pending = ts ++ l.pending }

  async_calls-behind :
      (us ts : List T) (l : Loop T W) → async_calls us (behind ts l) ≡ behind ts (async_calls us l)
  unfolding async_calls
  async_calls-behind [] ts l = refl
  async_calls-behind (u ∷ us) ts l =
      ap (λ p. async_calls us (record l { pending = p; signals = suc l.signals }))
        (append_assoc ts l.pending (u ∷ []))
      ∙ async_calls-behind us ts (async_call u l)

  call-behind :
      (t : T) (ts : List T) (l : Loop T W) → call exec t (behind ts l) ≡ behind ts (call exec t l)
  unfolding call
  call-behind t ts l =
      async_calls-behind (exec t l.world).1 ts (record l { world = (exec t l.world).0 })

  serve_times-behind :
      (ts : List T) (l : Loop T W) → serve_times (length ts) (behind ts l) ≡ call_all exec ts l
  unfolding serve_times serve call_all
  serve_times-behind [] l = refl
  serve_times-behind (t ∷ ts) l =
      ap (serve_times (length ts)) (call-behind t ts l) ∙ serve_times-behind ts (call exec t l)

  -- `ProcessPendingFunctors`, which takes all functors at once, does what serving a queue one
  -- functor at a time does, as often as functors wait: each runs once, in order, and those given
  -- meanwhile wait behind.
  pub process-eq-serve_times : (l : Loop T W) → process exec l ≡ serve_times (length l.pending) l
  unfolding process
  process-eq-serve_times l =
      sym (serve_times-behind l.pending (record l { pending = [] }))
      ∙ ap (λ p. serve_times (length l.pending) (record l { pending = p })) (append-nil l.pending)
