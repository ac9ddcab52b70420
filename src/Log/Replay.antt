-- ===== src/Log/Replay.antt =====
-- What installing a log does to the disk, by itself.
use os.Common.{
  ℕ, zero, suc, ◌+◌, ◌≤◌, ◌<◌, ◌≡◌, ◌≢◌, ◌⊎◌, inl, inr, refl, sym, ap, ◌∙◌, arith, ◌==◌, ==→eq,
  ==→ne, Bool-cases, update, update_self, update_ne,
}
use os.Machine.{Block, Log, fssize}

-- The home blocks get the log's data blocks, for the rounds left from entry `k`.
unfoldable pub replay : ℕ → ℕ → Log → (ℕ → Block) → ℕ → Block
replay zero k l d = d
replay (suc rounds) k l d = replay rounds (k + 1) l (update d (l.lh.block k) (d (l.start + 1 + k)))

-- A log whose entries are blocks of the disk outside the log, each of them once.
pub record IsPlaced (l : Log) : Type 0 where
  pub area : l.start + l.lh.n < fssize
  pub inside : (j : ℕ) → j < l.lh.n → l.lh.block j < fssize
  pub outside : (j : ℕ) → j < l.lh.n → (l.lh.block j < l.start) ⊎ (l.start + l.lh.n < l.lh.block j)
  pub once : (i j : ℕ) → i < l.lh.n → j < l.lh.n → l.lh.block i ≡ l.lh.block j → i ≡ j

module _ (l : Log) (w : IsPlaced l) where
  -- A block that is no entry's home stays.
  pub replay-other :
      (rounds k : ℕ) (d : ℕ → Block) (b : ℕ)
      → k + rounds ≤ l.lh.n
      → ((j : ℕ) → k ≤ j → j < k + rounds → l.lh.block j ≢ b)
      → replay rounds k l d b ≡ d b
  unfolding replay
  replay-other zero k d b h ne = refl
  replay-other (suc rounds) k d b h ne =
      replay-other rounds (k + 1) (update d (l.lh.block k) (d (l.start + 1 + k))) b (omega arith)
        (λ j lo hi. ne j (omega arith) (omega arith))
      ∙ update_ne d (l.lh.block k) b (d (l.start + 1 + k))
          (λ e. ne k (omega arith) (omega arith) (sym e))

  -- So the log itself stays,
  pub replay-log :
      (rounds k : ℕ) (d : ℕ → Block) (i : ℕ)
      → k + rounds ≤ l.lh.n
      → i ≤ l.lh.n
      → replay rounds k l d (l.start + i) ≡ d (l.start + i)
  replay-log rounds k d i h hi =
      replay-other rounds k d (l.start + i) h
        (λ j lo hj e. omega (arith, w.outside j (omega arith)))

  -- and the home of an entry gets the entry's data block.
  pub replay-home :
      (rounds k : ℕ) (d : ℕ → Block) (j : ℕ)
      → k + rounds ≤ l.lh.n
      → k ≤ j
      → j < k + rounds
      → replay rounds k l d (l.lh.block j) ≡ d (l.start + 1 + j)
  unfolding replay
  replay-home zero k d j h lo hi = absurd (omega arith)
  replay-home (suc rounds) k d j h lo hi = elim (Bool-cases (k == j)) [
    | inl same ↦
        let e : k ≡ j = ==→eq k j same in
        replay-other rounds (k + 1) d' (l.lh.block j) (omega arith)
          (λ i lo' hi' z. omega (arith, w.once i j (omega arith) (omega arith) z))
        ∙ ap (λ i. d' (l.lh.block i)) (sym e)
        ∙ update_self d (l.lh.block k) (d (l.start + 1 + k))
        ∙ ap (λ i. d (l.start + 1 + i)) e
    | inr other ↦
        replay-home rounds (k + 1) d' j (omega arith) (omega (arith, ==→ne k j other)) (omega arith)
        ∙ update_ne d (l.lh.block k) (l.start + 1 + j) (d (l.start + 1 + k))
            (λ z. omega (arith, w.outside k (omega arith)))
  ]
    where
      d' : ℕ → Block
      d' = update d (l.lh.block k) (d (l.start + 1 + k))

-- A log that agrees with a placed one on its entries is placed.
pub IsPlaced-agree :
    (l l' : Log)
    → l'.start ≡ l.start
    → l'.lh.n ≡ l.lh.n
    → ((j : ℕ) → j < l.lh.n → l'.lh.block j ≡ l.lh.block j)
    → IsPlaced l
    → IsPlaced l'
IsPlaced-agree l l' start n agree w = record {
  area = omega (arith, w.area);
  inside = λ j h. omega (arith, w.inside j (omega arith), agree j (omega arith));
  outside = λ j h. omega (arith, w.outside j (omega arith), agree j (omega arith));
  once = λ i j hi hj e.
      w.once i j (omega arith) (omega arith)
        (sym (agree i (omega arith)) ∙ e ∙ agree j (omega arith));
}
