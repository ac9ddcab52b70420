-- ===== src/Common/Runs.antt =====
-- The result of a run of kernel code: it returns, it panics with a message, or it never ends.
use Prim.Native.String.{String}

pub data Run (S A : Type 0) : Type 0 where
  ok : A → S → Run S A
  panic : String → Run S A
  hang : Run S A

abbrev pub M : Type 0 → Type 0 → Type 0
M S A = S → Run S A

abbrev pub pure : {S A : Type 0} → A → M S A
pure a s = ok a s

abbrev pub get : {S : Type 0} → M S S
get s = ok s s

abbrev pub modify : {S : Type 0} → (S → S) → M S (Unit {0})
modify f s = ok tt (f s)

abbrev pub fail : {S A : Type 0} → String → M S A
fail m s = panic m

abbrev pub spin : {S A : Type 0} → M S A
spin s = hang

abbrev pub and_then : {S A B : Type 0} → Run S A → (A → M S B) → Run S B
and_then (ok a s) k = k a s
and_then (panic m) k = panic m
and_then hang k = hang

infixl 5 ◌>>=◌ ◌>>◌
abbrev pub ◌>>=◌ : {S A B : Type 0} → M S A → (A → M S B) → M S B
◌>>=◌ m k s = and_then (m s) k

abbrev pub ◌>>◌ : {S B : Type 0} → M S (Unit {0}) → M S B → M S B
◌>>◌ m k s = and_then (m s) (λ _. k)
