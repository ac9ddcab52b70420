-- ===== src/Bio/Ring.antt =====
-- The circular list of bio.c stands for a list of buffers, the most recently used first.
use os.Common.{ℕ, ◌≡◌, ◌≢◌, sym, subst, List, [], ◌∷◌, ◌++◌, arith, Out, Distinct}
use os.Machine.{Buf, head}
use os.Bio.{set_prev, set_next, unlink, push_front}

-- From `p` the links lead through `xs` to `q`, and back.
abbrev pub Links : (ℕ → Buf) → ℕ → List ℕ → ℕ → Type 0
Links buf p [] q = ((buf p).next ≡ q) × ((buf q).prev ≡ p)
Links buf p (x ∷ xs) q = ((buf p).next ≡ x) × ((buf x).prev ≡ p) × Links buf x xs q

pub record IsRing (buf : ℕ → Buf) (order : List ℕ) : Type 0 where
  pub links : Links buf head order head
  pub distinct : Distinct (head ∷ order)

-- A write of `next` outside the nodes that are followed.
Links-set_next :
    (buf : ℕ → Buf) (a v p : ℕ) (xs : List ℕ) (q : ℕ)
    → a ≢ p
    → Out a xs
    → Links buf p xs q
    → Links (set_next a v buf) p xs q
Links-set_next buf a v p [] q ne out l = ground arith
Links-set_next buf a v p (x ∷ xs) q ne out l =
    (ground arith, ground arith, Links-set_next buf a v x xs q out.0 out.1 l.2)

-- A write of `prev` outside the nodes that are followed back.
Links-set_prev :
    (buf : ℕ → Buf) (a v p : ℕ) (xs : List ℕ) (q : ℕ)
    → Out a xs
    → a ≢ q
    → Links buf p xs q
    → Links (set_prev a v buf) p xs q
Links-set_prev buf a v p [] q out ne l = ground arith
Links-set_prev buf a v p (x ∷ xs) q out ne l =
    (ground arith, ground arith, Links-set_prev buf a v x xs q out.1 ne l.2)

-- A change that spares the links.
pub Links-same :
    (buf buf' : ℕ → Buf) (p : ℕ) (xs : List ℕ) (q : ℕ)
    → ((a : ℕ) → (buf' a).next ≡ (buf a).next)
    → ((a : ℕ) → (buf' a).prev ≡ (buf a).prev)
    → Links buf p xs q
    → Links buf' p xs q
Links-same buf buf' p [] q n r l = ground (arith, n p, r q)
Links-same buf buf' p (x ∷ xs) q n r l =
    (ground (arith, n p), ground (arith, r x), Links-same buf buf' x xs q n r l.2)

-- A path through `i` is a path to `i` and one from it.
split :
    (buf : ℕ → Buf) (p : ℕ) (xs : List ℕ) (i : ℕ) (ys : List ℕ) (q : ℕ)
    → Links buf p (xs ++ i ∷ ys) q
    → Links buf p xs i × Links buf i ys q
split buf p [] i ys q l = ((l.0, l.1), l.2)
split buf p (x ∷ xs) i ys q l =
    let (front, back) = split buf x xs i ys q l.2 in ((l.0, l.1, front), back)

-- What stands before the end of a path, and behind its start, is on the path.
prev-ne :
    (buf : ℕ → Buf) (a p : ℕ) (xs : List ℕ) (q : ℕ)
    → a ≢ p
    → Out a xs
    → Links buf p xs q
    → (buf q).prev ≢ a
prev-ne buf a p [] q ne out l = ground arith
prev-ne buf a p (x ∷ xs) q ne out l = prev-ne buf a x xs q out.0 out.1 l.2

next-ne :
    (buf : ℕ → Buf) (a p : ℕ) (xs : List ℕ) (q : ℕ)
    → Out a xs
    → a ≢ q
    → Links buf p xs q
    → (buf p).next ≢ a
next-ne buf a p [] q out ne l = ground arith
next-ne buf a p (x ∷ xs) q out ne l = ground arith

Out-append : (a : ℕ) (xs ys : List ℕ) → Out a (xs ++ ys) → Out a xs × Out a ys
Out-append a [] ys h = (tt, h)
Out-append a (x ∷ xs) ys h = ((h.0, (Out-append a xs ys h.1).0), (Out-append a xs ys h.1).1)

Out-join : (a : ℕ) (xs ys : List ℕ) → Out a xs → Out a ys → Out a (xs ++ ys)
Out-join a [] ys h k = k
Out-join a (x ∷ xs) ys h k = (h.0, Out-join a xs ys h.1 k)

Links-push_front :
    (buf : ℕ → Buf) (i : ℕ) (order : List ℕ)
    → Distinct (i ∷ head ∷ order)
    → Links buf head order head
    → Links (push_front i buf) head (i ∷ order) head
unfolding push_front
Links-push_front buf i [] d l = ground arith
Links-push_front buf i (x ∷ xs) d l =
    (ground arith, ground arith, (ground arith, ground arith, tail))
  where
    buf1 : ℕ → Buf
    buf1 = set_next i (buf head).next buf

    buf2 : ℕ → Buf
    buf2 = set_prev i head buf1

    first : (buf2 head).next ≡ x
    first = ground arith

    old : Links buf2 x xs head
    old =
        Links-set_prev buf1 i head x xs head d.0.1.1 d.0.0
          (Links-set_next buf i (buf head).next x xs head d.0.1.0 d.0.1.1 l.2)

    old3 : Links (set_prev (buf2 head).next i buf2) x xs head
    old3 =
        Links-set_prev buf2 (buf2 head).next i x xs head (subst (λ n. Out n xs) (sym first) d.1.1.0)
          (subst (λ n. n ≢ head) (sym first) (λ e. d.1.0.0 (sym e))) old

    tail : Links (set_next head i (set_prev (buf2 head).next i buf2)) x xs head
    tail = Links-set_next (set_prev (buf2 head).next i buf2) head i x xs head d.1.0.0 d.1.0.1 old3

-- Taking `i` out of a path leaves the path without it.
Links-unlink :
    (buf : ℕ → Buf) (i p : ℕ) (xs ys : List ℕ) (q : ℕ)
    → Distinct (p ∷ xs ++ ys)
    → Out q (xs ++ ys)
    → Links buf p xs i
    → Links buf i ys q
    → Links (unlink i buf) p (xs ++ ys) q
unfolding unlink
Links-unlink buf i p [] [] q d out front back = ground arith
Links-unlink buf i p [] (y ∷ ys) q d out front back = (ground arith, ground arith, rest)
  where
    buf1 : ℕ → Buf
    buf1 = set_prev (buf i).next (buf i).prev buf

    before : (buf1 i).prev ≡ p
    before = ground arith

    rest : Links (set_next (buf1 i).prev (buf1 i).next buf1) y ys q
    rest =
        Links-set_next buf1 _ _ y ys q (subst (λ n. n ≢ y) (sym before) d.0.0)
          (subst (λ n. Out n ys) (sym before) d.0.1)
          (Links-set_prev buf _ _ y ys q (subst (λ n. Out n ys) (sym back.0) d.1.0)
            (subst (λ n. n ≢ q) (sym back.0) (λ e. out.0 (sym e))) back.2)
Links-unlink buf i p (x ∷ xs) ys q d out front back = (
  ground (arith, prev-ne buf p x xs i d.0.0 outp.0 front.2),
  ground (arith, next-ne buf x i ys q outx.1 (λ e. out.0 (sym e)) back),
  Links-unlink buf i x xs ys q d.1 out.1 front.2 back,
)
  where
    outp : Out p xs × Out p ys
    outp = Out-append p xs ys d.0.1

    outx : Out x xs × Out x ys
    outx = Out-append x xs ys d.1.0

Distinct-drop :
    (xs : List ℕ) (i : ℕ) (ys : List ℕ)
    → Distinct (xs ++ i ∷ ys)
    → Distinct (xs ++ ys) × Out i (xs ++ ys)
Distinct-drop [] i ys d = (d.1, d.0)
Distinct-drop (x ∷ xs) i ys d =
    let (rest, out) = Distinct-drop xs i ys d.1 in
    let (front, back) = Out-append x xs (i ∷ ys) d.0 in
    ((Out-join x xs ys front back.1, rest), (λ e. back.0 (sym e), out))

-- Putting a new buffer in front gives the list with it in front.
pub push_front-IsRing :
    (buf : ℕ → Buf) (i : ℕ) (order : List ℕ)
    → i ≢ head
    → Out i order
    → IsRing buf order
    → IsRing (push_front i buf) (i ∷ order)
push_front-IsRing buf i order ne out r = record {
  links = Links-push_front buf i order ((ne, out), r.distinct) r.links;
  distinct = ((λ e. ne (sym e), r.distinct.0), (out, r.distinct.1));
}

-- Taking a buffer out gives the list without it, and the buffer is new to that list.
pub unlink-IsRing :
    (buf : ℕ → Buf) (xs : List ℕ) (i : ℕ) (ys : List ℕ)
    → IsRing buf (xs ++ i ∷ ys)
    → IsRing (unlink i buf) (xs ++ ys) × (i ≢ head) × Out i (xs ++ ys)
unlink-IsRing buf xs i ys r =
    let (d, out) = Distinct-drop (head ∷ xs) i ys r.distinct in
    let (front, back) = split buf head xs i ys head r.links in
    (
      record { links = Links-unlink buf i head xs ys head d d.0 front back; distinct = d },
      out.0,
      out.1,
    )
