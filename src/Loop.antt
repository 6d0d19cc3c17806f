-- ===== src/Loop.antt =====
-- src/include/EventLoop.h, src/network/EventLoop.cpp and src/util/EventChannel.cpp: the functors that
-- wait for an event loop, and the socket pair that wakes it. What a functor does is a parameter: it
-- changes the program's state and gives further functors to the loop.
pub mod Queue
pub mod Wakeup
pub mod Stop
pub mod Channel
pub mod Lifecycle
use tiny_game_server.Base.{
  ℕ, zero, suc, ◌+◌, List, [], ◌∷◌, ◌++◌, Option, none, some, Bool, true, false, if◌then◌else◌,
  ◌>>=◌,
}

pub data LoopStatus : Type 0 where
  initial running stopped : LoopStatus

pub record Loop (T W : Type 0) : Type 0 where
  pub status : LoopStatus
  pub pending : List T  -- `pending_functors_`
  pub signals : ℕ  -- the bytes in the socket pair
  pub exiting : Bool  -- `event_base_loopexit` was called
  pub world : W

module _ {T W : Type 0} where
  unfoldable pub new_loop : W → Loop T W
  new_loop w = record { status = initial; pending = []; signals = 0; exiting = false; world = w }

  -- `EventChannel::Notify`: `sizeof(buf)` is 1.
  unfoldable pub notify : Loop T W → Loop T W
  notify l = record l { signals = suc l.signals }

  unfoldable pub async_call : T → Loop T W → Loop T W
  unfolding notify
  async_call t l = notify (record l { pending = l.pending ++ (t ∷ []) })

  unfoldable pub async_calls : List T → Loop T W → Loop T W
  unfolding async_call
  async_calls [] l = l
  async_calls (t ∷ ts) l = async_calls ts (async_call t l)

abbrev pub is_empty {ℓ} : {A : Type ℓ} → List A → Bool
is_empty [] = true
is_empty (x ∷ xs) = false

abbrev pub is_running : LoopStatus → Bool
is_running running = true
is_running _ = false

module _ {T W : Type 0} (exec : T → W → W × List T) where
  -- One functor, and what it gives to the loop while it runs.
  unfoldable pub call : T → Loop T W → Loop T W
  unfolding async_calls
  call t l = let (w, posted) = exec t l.world in async_calls posted (record l { world = w })

  unfoldable pub call_all : List T → Loop T W → Loop T W
  unfolding call
  call_all [] l = l
  call_all (t ∷ ts) l = call_all ts (call t l)

  -- `ProcessPendingFunctors`
  unfoldable pub process : Loop T W → Loop T W
  unfolding call_all
  process l = call_all l.pending (record l { pending = [] })

  -- `EventChannel::Update`, with the loop's functor: every byte is received first.
  unfoldable pub update : Loop T W → Loop T W
  unfolding process
  update l = process (record l { signals = 0 })

  -- `while (!pending_functors_.empty()) ProcessPendingFunctors();` on fuel.
  unfoldable pub drain : ℕ → Loop T W → Option (Loop T W)
  unfolding process
  drain zero l = none
  drain (suc fuel) l =
      let rest = drain fuel (process l) in if is_empty l.pending then some l else rest

  unfoldable pub stop : ℕ → Loop T W → Option (Loop T W)
  stop fuel l =
      if is_running l.status
      then drain fuel (record l { status = stopped })
        >>= (λ d. drain fuel (record d { exiting = true }))
      else some l
