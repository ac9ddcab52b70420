-- ===== src/Bio/Init.antt =====
-- binit builds a cache that stands for the buffers in the opposite order of the array.
use os.Common.{
  ℕ, zero, suc, ◌+◌, ◌≤◌, ◌<◌, ◌≡◌, ◌≢◌, refl, sym, ap, ◌∙◌, subst, inl, inr, false, List, [], ◌∷◌,
  arith, Out, length, ◌==◌, update, update_self, update_ne, ◌∈◌, ne_of_Out, Bool-cases,
}
use os.Lock.{initsleeplock}
use os.Machine.{Buf, head, nbuf}
use os.Bio.{binit_buf, binit_loop, binit_ring}
use os.Bio.Ring.{Links-same, push_front-IsRing}
use os.Bio.Buffers.{IsCounted, IsBuffers}
use os.Bio.Release.{unplaced, push_front-data}

-- `n - 1`, …, 0
abbrev pub countdown : ℕ → List ℕ
countdown zero = []
countdown (suc n) = n ∷ countdown n

-- No buffer has been used, and the list holds those that were initialised.
pub record IsFresh (buf : ℕ → Buf) (order : List ℕ) : Type 0 where
  pub bufs : IsBuffers buf order
  pub unused_dev : (j : ℕ) → j ∈ order → (buf j).dev ≡ 0
  pub back : (j : ℕ) → j ∈ order → (buf j).lock.locked ≡ false
  pub invalid : (j : ℕ) → j ∈ order → (buf j).valid ≡ false

blank : Buf → Buf
blank b = record b {
  valid = false;
  disk = false;
  dev = 0;
  blockno = 0;
  refcnt = 0;
  lock = initsleeplock;
}

Out-countdown : (n m : ℕ) → n ≤ m → Out m (countdown n)
Out-countdown zero m h = tt
Out-countdown (suc n) m h = (omega arith, Out-countdown n m (omega arith))

length-countdown : (n : ℕ) → length (countdown n) ≡ n
length-countdown zero = refl
length-countdown (suc n) = ap suc (length-countdown n)

module _ (buf : ℕ → Buf) (i : ℕ) (order : List ℕ) (f : IsFresh buf order) (ne : i ≢ head)
    (out : Out i order) (room : length order < nbuf) where
  -- What stands in the array after the round for `i`.
  data_at : (j : ℕ) → unplaced (binit_buf i buf j) ≡ unplaced (update buf i (blank (buf i)) j)
  unfolding binit_buf blank
  data_at j = push_front-data i (update buf i (blank (buf i))) j

  data_self : unplaced (binit_buf i buf i) ≡ unplaced (blank (buf i))
  data_self = data_at i ∙ ap unplaced (update_self buf i (blank (buf i)))

  data_old : (j : ℕ) → j ∈ order → unplaced (binit_buf i buf j) ≡ unplaced (buf j)
  data_old j m =
      data_at j
      ∙ ap unplaced (update_ne buf i j (blank (buf i)) (λ e. ne_of_Out i j order out m (sym e)))

  each :
      (P : Buf → Type 0)
      → P (unplaced (blank (buf i)))
      → ((j : ℕ) → j ∈ order → P (unplaced (buf j)))
      → (j : ℕ) → j ∈ (i ∷ order)
      → P (unplaced (binit_buf i buf j))
  each P new old j m = elim (Bool-cases (j == i)) [
    | inl same ↦
        subst (λ k. P (unplaced (binit_buf i buf k))) (ground arith) (subst P (sym data_self) new)
    | inr other ↦ let m' : j ∈ order = ground arith in subst P (sym (data_old j m')) (old j m')
  ]

  binit_buf-IsFresh : IsFresh (binit_buf i buf) (i ∷ order)
  unfolding binit_buf blank
  binit_buf-IsFresh = record {
    bufs = record {
      ring = push_front-IsRing (update buf i (blank (buf i))) i order ne out (record {
        links =
            Links-same buf (update buf i (blank (buf i))) head order head (λ a. ground arith)
              (λ a. ground arith) f.bufs.ring.links;
        distinct = f.bufs.ring.distinct;
      });
      size = omega arith;
      inner_free = each (λ b. b.lock.lk.locked ≡ false) refl f.bufs.inner_free;
      counted = each (λ b. IsCounted b) (inr (refl, refl)) f.bufs.counted;
      unique = λ j l m n used. absurd (used (each (λ b. b.dev ≡ 0) refl f.unused_dev j m));
    };
    unused_dev = each (λ b. b.dev ≡ 0) refl f.unused_dev;
    back = each (λ b. b.lock.locked ≡ false) refl f.back;
    invalid = each (λ b. b.valid ≡ false) refl f.invalid;
  }

binit_loop-IsFresh :
    (rounds i n : ℕ) (buf : ℕ → Buf)
    → i + rounds ≡ n
    → n ≤ nbuf
    → IsFresh buf (countdown i)
    → IsFresh (binit_loop rounds i buf) (countdown n)
unfolding binit_loop
binit_loop-IsFresh zero i n buf e h f =
    subst (λ k. IsFresh buf (countdown k)) (let e' : i ≡ n = omega arith in e') f
binit_loop-IsFresh (suc rounds) i n buf e h f =
    binit_loop-IsFresh rounds (i + 1) n (binit_buf i buf) (omega arith) h (
      subst (λ k. IsFresh (binit_buf i buf) (countdown k))
        (let e' : suc i ≡ i + 1 = omega arith in e')
        (binit_buf-IsFresh buf i (countdown i) f (omega arith) (Out-countdown i i (omega arith))
          (omega (arith, length-countdown i))))

-- Whatever the array of buffers held before, binit makes a well-formed cache of all NBUF buffers,
-- none of which has been used, is out or is valid.
pub binit_ring-IsFresh : (buf : ℕ → Buf) → IsFresh (binit_ring buf) (countdown nbuf)
unfolding binit_ring
binit_ring-IsFresh buf =
    binit_loop-IsFresh nbuf 0 nbuf
      (update buf head (record (buf head) { prev = head; next = head })) refl (omega arith)
      (record {
        bufs = record {
          ring = record { links = ground arith; distinct = (tt, tt) };
          size = omega arith;
          inner_free = λ j m. cc;
          counted = λ j m. absurd (cc m);
          unique = λ j l m n. cc;
        };
        unused_dev = λ j m. cc;
        back = λ j m. cc;
        invalid = λ j m. cc;
      })
