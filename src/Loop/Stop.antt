-- ===== src/Loop/Stop.antt =====
-- `Stop` drains the loop.
use tiny_game_server.Base.{
  ℕ, zero, suc, ◌≤◌, ◌<◌, ◌≡◌, refl, ap, ◌∙◌, List, [], ◌∷◌, ◌++◌, Option, some, true,
  if◌then◌else◌, ◌>>=◌, arith,
}
use tiny_game_server.Loop.{
  Loop, running, stopped, async_call, async_calls, call, call_all, process, drain, stop, is_empty,
  is_running,
}

module _ {T W : Type 0} (exec : T → W → W × List T) (rank : T → ℕ) where
  -- Every functor of a list has a rank below `k`.
  abbrev pub AllBelow : ℕ → List T → Type 0
  AllBelow k [] = Unit {0}
  AllBelow k (t ∷ ts) = (rank t < k) × AllBelow k ts

  -- A functor gives the loop only functors of lower rank, so a chain of them ends.
  abbrev pub Falls : Type 0
  Falls = (t : T) (w : W) → AllBelow (rank t) (exec t w).1

  AllBelow-append : (k : ℕ) (ts us : List T) → AllBelow k ts → AllBelow k us → AllBelow k (ts ++ us)
  AllBelow-append k [] us h g = g
  AllBelow-append k (t ∷ ts) us h g = (h.0, AllBelow-append k ts us h.1 g)

  AllBelow-mono : (j k : ℕ) (ts : List T) → j ≤ k → AllBelow j ts → AllBelow k ts
  AllBelow-mono j k [] h g = tt
  AllBelow-mono j k (t ∷ ts) h g = (omega arith, AllBelow-mono j k ts h g.1)

  async_calls-AllBelow :
      (k : ℕ) (us : List T) (l : Loop T W)
      → AllBelow k us
      → AllBelow k l.pending
      → AllBelow k (async_calls us l).pending
  unfolding async_calls
  async_calls-AllBelow k [] l h g = g
  async_calls-AllBelow k (u ∷ us) l h g =
      async_calls-AllBelow k us (async_call u l) h.1
        (AllBelow-append k l.pending (u ∷ []) g (h.0, tt))

  call_all-AllBelow :
      (falls : Falls) (k : ℕ) (ts : List T) (l : Loop T W)
      → AllBelow (suc k) ts
      → AllBelow k l.pending
      → AllBelow k (call_all exec ts l).pending
  unfolding call_all
  call_all-AllBelow falls k [] l h g = g
  call_all-AllBelow falls k (t ∷ ts) l h g = call_all-AllBelow falls k ts (call exec t l) h.1 (
      async_calls-AllBelow k (exec t l.world).1 _
        (AllBelow-mono (rank t) k (exec t l.world).1 (omega (arith, h.0)) (falls t l.world)) g)

  async_calls-status : (us : List T) (l : Loop T W) → (async_calls us l).status ≡ l.status
  unfolding async_calls
  async_calls-status [] l = refl
  async_calls-status (u ∷ us) l = async_calls-status us (async_call u l)

  call_all-status : (ts : List T) (l : Loop T W) → (call_all exec ts l).status ≡ l.status
  unfolding call_all
  call_all-status [] l = refl
  call_all-status (t ∷ ts) l =
      call_all-status ts (call exec t l) ∙ async_calls-status (exec t l.world).1 _

  -- As many rounds as the highest rank empty the list.
  drain-AllBelow :
      (falls : Falls) (k : ℕ) (l : Loop T W) (ts : List T)
      → l.pending ≡ ts
      → AllBelow k ts
      → (d : Loop T W) × (drain exec (suc k) l ≡ some d) × (d.pending ≡ []) × (d.status ≡ l.status)
  unfolding drain
  drain-AllBelow falls k l [] e h = (l, rw (e, drain), e, refl)
  drain-AllBelow falls zero l (t ∷ ts) e h = absurd (omega arith)
  drain-AllBelow falls (suc k) l (t ∷ ts) e h =
      let (d, r, p, q) =
        drain-AllBelow falls k (process exec l) (process exec l).pending refl
          (lower l (t ∷ ts) e h) in
      (d, busy ∙ r, p, q ∙ call_all-status l.pending (record l { pending = [] }))
    where
      lower :
          (m : Loop T W) (us : List T)
          → m.pending ≡ us
          → AllBelow (suc k) us
          → AllBelow k (process exec m).pending
      lower m us p g = call_all-AllBelow falls k m.pending (record m { pending = [] }) (rw p g) tt

      busy : drain exec (suc (suc k)) l ≡ drain exec (suc k) (process exec l)
      busy = ap (λ b. if b then some l else drain exec (suc k) (process exec l)) (ap is_empty e)

  drain_empty : (k : ℕ) (l : Loop T W) → l.pending ≡ [] → drain exec (suc k) l ≡ some l
  unfolding drain
  drain_empty k l e = rw (e, drain)

  -- If functors give the loop only functors of lower rank, `Stop` of a running loop whose functors
  -- are of rank below `k` ends, with fuel for `k + 1` rounds: it leaves a stopped loop with no
  -- functors, which was told to exit.
  pub stop_drains :
      Falls
      → (k : ℕ) (l : Loop T W) → l.status ≡ running
      → AllBelow k l.pending
      → (d : Loop T W) × (stop exec (suc k) l ≡ some d)
        × (d.status ≡ stopped)
        × (d.pending ≡ [])
        × (d.exiting ≡ true)
  unfolding stop
  stop_drains falls k l e h =
      let (d, r, p, q) = drain-AllBelow falls k (record l { status = stopped }) l.pending refl h in
      (
        record d { exiting = true },
        ap (λ b. if is_running b then finished else some l) e
            ∙ ap (λ x. x >>= last) r
            ∙ drain_empty k (record d { exiting = true }) p,
        q,
        p,
        refl,
      )
    where
      last : Loop T W → Option (Loop T W)
      last d = drain exec (suc k) (record d { exiting = true })

      finished : Option (Loop T W)
      finished = drain exec (suc k) (record l { status = stopped }) >>= last
