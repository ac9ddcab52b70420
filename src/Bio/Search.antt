-- ===== src/Bio/Search.antt =====
-- The two walks of bget along the circular list are searches of the list that it stands for.
use mathlib.Core.List.{reverse_aux}
use os.Common.{
  ℕ, zero, suc, ◌+◌, ◌<◌, ◌≡◌, ◌≢◌, refl, Bool, true, false, List, [], ◌∷◌, arith, Out, length,
  ◌||◌, has, ◌∈◌, if◌then◌else◌,
}
use os.Machine.{Buf, head}
use os.Bio.{Walk, found, absent, lost, walk}
use os.Bio.Ring.{Links, IsRing}

-- The first buffer of a list that passes the test.
unfoldable pub first : (Buf → Bool) → (ℕ → Buf) → List ℕ → Walk
first test buf [] = absent
first test buf (x ∷ xs) = if test (buf x) then found x else first test buf xs

abbrev pub backwards : List ℕ → List ℕ
backwards xs = reverse_aux xs []

-- From `p` the link leads through `xs` to `q`.
abbrev Leads : (Buf → ℕ) → (ℕ → Buf) → ℕ → List ℕ → ℕ → Type 0
Leads link buf p [] q = link (buf p) ≡ q
Leads link buf p (x ∷ xs) q = (link (buf p) ≡ x) × Leads link buf x xs q

Leads-next :
    (buf : ℕ → Buf) (p : ℕ) (xs : List ℕ) (q : ℕ)
    → Links buf p xs q
    → Leads (λ b. b.next) buf p xs q
Leads-next buf p [] q l = l.0
Leads-next buf p (x ∷ xs) q l = (l.0, Leads-next buf x xs q l.2)

Leads-prev_aux :
    (buf : ℕ → Buf) (p : ℕ) (xs : List ℕ) (q : ℕ) (done : List ℕ) (r : ℕ)
    → Links buf p xs q
    → Leads (λ b. b.prev) buf p done r
    → Leads (λ b. b.prev) buf q (reverse_aux (p ∷ xs) done) r
Leads-prev_aux buf p [] q done r l path = (l.1, path)
Leads-prev_aux buf p (x ∷ xs) q done r l path =
    Leads-prev_aux buf x xs q (p ∷ done) r l.2 (l.1, path)

Leads-prev :
    (buf : ℕ → Buf) (p : ℕ) (xs : List ℕ) (q : ℕ)
    → Links buf p xs q
    → Leads (λ b. b.prev) buf q (backwards xs) p
Leads-prev buf p [] q l = l.1
Leads-prev buf p (x ∷ xs) q l = Leads-prev_aux buf x xs q [] p l.2 l.1

-- A walk along a path that ends at the dummy node, with a round for each buffer and one more.
walk-first :
    (fuel : ℕ) (test : Buf → Bool) (link : Buf → ℕ) (buf : ℕ → Buf) (p : ℕ) (xs : List ℕ)
    → Leads link buf p xs head
    → Out head xs
    → length xs < fuel
    → walk fuel test link buf (link (buf p)) ≡ first test buf xs
unfolding walk first
walk-first zero test link buf p xs path out h = elim h [ ]
walk-first (suc fuel) test link buf p [] path out h = ground arith
walk-first (suc fuel) test link buf p (x ∷ xs) path out h =
    rw path.0 (ground (arith, walk-first fuel test link buf x xs path.1 out.1 (omega arith)))

Out-reverse_aux : (a : ℕ) (xs ys : List ℕ) → Out a xs → Out a ys → Out a (reverse_aux xs ys)
Out-reverse_aux a [] ys h k = k
Out-reverse_aux a (x ∷ xs) ys h k = Out-reverse_aux a xs (x ∷ ys) h.1 (h.0, k)

length-reverse_aux : (xs ys : List ℕ) → length (reverse_aux xs ys) ≡ length xs + length ys
length-reverse_aux [] ys = omega arith
length-reverse_aux (x ∷ xs) ys = omega (arith, length-reverse_aux xs (x ∷ ys))

module _ (buf : ℕ → Buf) (order : List ℕ) (r : IsRing buf order) (test : Buf → Bool) (fuel : ℕ)
    (h : length order < fuel) where
  -- The walk along `next` meets the buffers from the most to the least recently used.
  pub walk-next : walk fuel test (λ b. b.next) buf (buf head).next ≡ first test buf order
  walk-next =
      walk-first fuel test (λ b. b.next) buf head order (Leads-next buf head order head r.links)
        r.distinct.0 h

  -- The walk along `prev` meets them in the opposite order.
  pub walk-prev :
      walk fuel test (λ b. b.prev) buf (buf head).prev ≡ first test buf (backwards order)
  walk-prev =
      walk-first fuel test (λ b. b.prev) buf head (backwards order)
        (Leads-prev buf head order head r.links) (Out-reverse_aux head order [] r.distinct.0 tt)
        (omega (arith, length-reverse_aux order []))

pub first_sound :
    (test : Buf → Bool) (buf : ℕ → Buf) (xs : List ℕ) (i : ℕ)
    → first test buf xs ≡ found i
    → (i ∈ xs) × (test (buf i) ≡ true)
unfolding first
first_sound test buf [] i e = cc
first_sound test buf (x ∷ xs) i e = ground (arith, first_sound test buf xs i)

pub first-absent :
    (test : Buf → Bool) (buf : ℕ → Buf) (xs : List ℕ) (j : ℕ)
    → first test buf xs ≡ absent
    → j ∈ xs
    → test (buf j) ≡ false
unfolding first
first-absent test buf [] j e m = cc
first-absent test buf (x ∷ xs) j e m = ground (arith, first-absent test buf xs j)

has-reverse_aux : (j : ℕ) (xs ys : List ℕ) → has j (reverse_aux xs ys) ≡ (has j xs || has j ys)
has-reverse_aux j [] ys = refl
has-reverse_aux j (x ∷ xs) ys = ground (arith, has-reverse_aux j xs (x ∷ ys))

pub has-backwards : (j : ℕ) (xs : List ℕ) → has j (backwards xs) ≡ has j xs
has-backwards j xs = ground (arith, has-reverse_aux j xs [])

pub first-ne-lost : (test : Buf → Bool) (buf : ℕ → Buf) (xs : List ℕ) → first test buf xs ≢ lost
unfolding first
first-ne-lost test buf [] = ground arith
first-ne-lost test buf (x ∷ xs) = ground (arith, first-ne-lost test buf xs)
