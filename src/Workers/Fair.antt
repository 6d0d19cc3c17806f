-- ===== src/Workers/Fair.antt =====
-- How connections are spread over the workers.
use mathlib.Core.List.{Perm, perm_append_comm}
use native.Mathlib.Nat.{mul-add-mod_self_right, mod-eq_of_lt, div-add-mod', mod-lt}
use tiny_game_server.Base.{
  ℕ, zero, suc, ◌+◌, ◌-◌, ◌*◌, ◌/◌, ◌%◌, ◌≤◌, ◌<◌, ◌≡◌, refl, sym, ap, ◌∙◌, List, [], ◌∷◌, ◌++◌,
  some, false, ◌==◌, arith, length, length-drop, take_all, ap₂, get_elem?, get_or, drop-get_or, map,
  take, drop, take-append-drop,
}
use tiny_game_server.Loop.{LoopStatus}
use tiny_game_server.Workers.{Worker, Manager, int_max, pick_worker, pick_event_loop, picks}

abbrev pub loops : List Worker → List ℕ
loops ws = map (λ w. w.loop) ws

length-loops : (ws : List Worker) → length (loops ws) ≡ length ws
length-loops [] = refl
length-loops (w ∷ ws) = ap suc (length-loops ws)

get_elem?-loops :
    (ws : List Worker) (i : ℕ)
    → i < length ws
    → (w : Worker) × (get_elem? ws i ≡ some w) × (w.loop ≡ get_or (loops ws) i 0)
get_elem?-loops [] i h = absurd (omega arith)
get_elem?-loops (w ∷ ws) zero h = (w, refl, refl)
get_elem?-loops (w ∷ ws) (suc i) h = get_elem?-loops ws i (omega arith)

pick_event_loop_lem :
    (ws : List Worker) (loop : ℕ) (status : LoopStatus) (i : ℕ) (w : Worker)
    → i < int_max
    → get_elem? ws (i % length ws) ≡ some w
    → pick_event_loop (record { loop = loop; threads = ws; status = status }) i
      ≡ some (w.loop, suc i)
unfolding pick_event_loop pick_worker
pick_event_loop_lem [] loop status i w h e = absurd (cc)
pick_event_loop_lem (x ∷ xs) loop status i w h e = rw (not_max, e)
  where
    not_max : (i == int_max) ≡ false
    not_max = ground arith

module _ (ws : List Worker) where
  -- The loops that `k` picks find, from counter `i` on.
  seen : ℕ → ℕ → List ℕ
  seen zero i = []
  seen (suc k) i = get_or (loops ws) (i % length ws) 0 ∷ seen k (suc i)

  seen-append : (a b c i : ℕ) → c ≡ a + b → seen c i ≡ seen a i ++ seen b (a + i)
  unfolding seen
  seen-append zero b c i e = ap (λ t. seen t i) (e ∙ omega arith) ∙ ap (seen b) (omega arith)
  seen-append (suc a) b zero i e = absurd (omega arith)
  seen-append (suc a) b (suc c) i e =
      ap (◌∷◌ (get_or (loops ws) (i % length ws) 0)) (
        seen-append a b c (suc i) (omega arith)
        ∙ ap (λ t. seen a (suc i) ++ seen b t) (omega arith))

  seen_window :
      (k q j i : ℕ)
      → i ≡ q * length ws + j
      → j + k ≤ length ws
      → seen k i ≡ take k (drop j (loops ws))
  unfolding seen
  seen_window zero q j i e h = refl
  seen_window (suc k) q j i e h =
      ap (λ t. get_or (loops ws) t 0 ∷ seen k (suc i)) at
      ∙ ap (◌∷◌ (get_or (loops ws) j 0))
          (seen_window k q (suc j) (suc i) (omega arith) (omega arith))
      ∙ ap (take (suc k)) (sym (drop-get_or (loops ws) j 0 (omega (arith, length-loops ws))))
    where
      at : i % length ws ≡ j
      at =
          ap (λ t. t % length ws) e
          ∙ mul-add-mod_self_right q (length ws) j
          ∙ mod-eq_of_lt (omega arith)

  -- A round of as many picks as there are workers.
  seen_round :
      (i : ℕ)
      → 0 < length ws
      → seen (length ws) i ≡ drop (i % length ws) (loops ws) ++ take (i % length ws) (loops ws)
  seen_round i h =
      seen-append (n - r) r n i (omega (arith, small))
      ∙ ap₂ ◌++◌
          (seen_window (n - r) q r i (omega (arith, parts)) (omega (arith, small))
            ∙ take_all (n - r) (drop r (loops ws))
                (omega (arith, length-drop r (loops ws), length-loops ws)))
          (seen_window r (suc q) 0 (n - r + i) (omega (arith, parts, small)) (omega (arith, small)))
    where
      n : ℕ
      n = length ws

      r : ℕ
      r = i % length ws

      q : ℕ
      q = i / length ws

      small : r < n
      small = mod-lt i h

      parts : q * n + r ≡ i
      parts = div-add-mod' i n

  picks-seen :
      (loop : ℕ) (status : LoopStatus) (k i : ℕ)
      → 0 < length ws
      → i + k ≤ int_max
      → picks k (record { loop = loop; threads = ws; status = status }) i ≡ some (seen k i, i + k)
  unfolding picks seen
  picks-seen loop status zero i h m = ap (λ t. some ([], t)) (omega arith)
  picks-seen loop status (suc k) i h m =
      let (w, e, l) = get_elem?-loops ws (i % length ws) (mod-lt i h) in
      rw
        (
          pick_event_loop_lem ws loop status i w (omega arith) e,
          picks-seen loop status k (suc i) h (omega arith),
          l,
        )
        (ap (λ t. some (seen (suc k) i, t)) (omega arith))

-- As many calls of `PickEventLoop` in a row as there are workers, and at least one, find the
-- workers' loops, each once, in some order, wherever the counter stands, as long as it does not
-- overflow.
pub picks-Perm :
    (m : Manager) (i : ℕ)
    → 0 < length m.threads
    → i + length m.threads ≤ int_max
    → (ps : List ℕ) × (picks (length m.threads) m i ≡ some (ps, i + length m.threads))
      × Perm ps (loops m.threads)
picks-Perm m i h k = (
  seen m.threads (length m.threads) i,
  picks-seen m.threads m.loop m.status (length m.threads) i h k,
  rw (seen_round m.threads i h) (rotated (i % length m.threads)),
)
  where
    rotated :
        (r : ℕ) → Perm (drop r (loops m.threads) ++ take r (loops m.threads)) (loops m.threads)
    rotated r =
        rw (take-append-drop r (loops m.threads)) at
          (perm_append_comm (drop r (loops m.threads)) (take r (loops m.threads)))
