-- ===== src/Bio/Release.antt =====
-- brelse: the buffer that is given back becomes the most recently used one.
use os.Common.{
  ℕ, ◌-◌, ◌≡◌, ◌≢◌, refl, sym, ap, ◌∙◌, subst, inl, inr, Bool, true, false, Option, List, ◌∷◌, ◌++◌,
  arith, le→ltb, some, update, update_self, update-update, ◌∈◌, remove, split_at, has-remove,
  length-remove, Run, ok, panic, and_then,
}
use os.Lock.{Cpu, Spinlock, Sleeplock, initlock, sleeping, acquire, release}
use os.Lock.Waits.{enabled, acquire-free, holdingsleep_lem, releasesleep_lem}
use os.Machine.{Machine, Buf, head, set_buf, put_lock, put_held, put_bcache}
use os.Bio.{set_prev, set_next, unlink, push_front, brelse_move, brelse_count, brelse_held, brelse}
use os.Bio.Ring.{IsRing, push_front-IsRing, unlink-IsRing}
use os.Bio.Buffers.{IsBuffers, IsCounted, update-IsBuffers, sole_of_unique}
use os.Bio.Cache.{IsCache}

-- A buffer less its place in the list.
abbrev pub unplaced : Buf → Buf
unplaced b = record b { prev = 0; next = 0 }

set_prev-data : (i p : ℕ) (buf : ℕ → Buf) (j : ℕ) → unplaced (set_prev i p buf j) ≡ unplaced (buf j)
set_prev-data i p buf j = ground arith

set_next-data : (i p : ℕ) (buf : ℕ → Buf) (j : ℕ) → unplaced (set_next i p buf j) ≡ unplaced (buf j)
set_next-data i p buf j = ground arith

pub push_front-data :
    (i : ℕ) (buf : ℕ → Buf) (j : ℕ) → unplaced (push_front i buf j) ≡ unplaced (buf j)
unfolding push_front
push_front-data i buf j =
    let buf1 = set_next i (buf head).next buf in
    let buf2 = set_prev i head buf1 in
    let buf3 = set_prev (buf2 head).next i buf2 in
    set_next-data head i buf3 j
    ∙ set_prev-data (buf2 head).next i buf2 j
    ∙ set_prev-data i head buf1 j
    ∙ set_next-data i (buf head).next buf j

unlink-data : (i : ℕ) (buf : ℕ → Buf) (j : ℕ) → unplaced (unlink i buf j) ≡ unplaced (buf j)
unfolding unlink
unlink-data i buf j =
    let buf1 = set_prev (buf i).next (buf i).prev buf in
    set_next-data (buf1 i).prev (buf1 i).next buf1 j ∙ set_prev-data (buf i).next (buf i).prev buf j

-- The moved buffers hold what they held.
pub moved-data :
    (i : ℕ) (buf : ℕ → Buf) (j : ℕ) → unplaced (push_front i (unlink i buf) j) ≡ unplaced (buf j)
moved-data i buf j = push_front-data i (unlink i buf) j ∙ unlink-data i buf j

-- Moving a buffer to the front is moving it to the front of the list.
pub moved-IsRing :
    (buf : ℕ → Buf) (order : List ℕ) (i : ℕ)
    → IsRing buf order
    → i ∈ order
    → IsRing (push_front i (unlink i buf)) (i ∷ remove i order)
moved-IsRing buf order i r m =
    let (xs, ys, e, e') = split_at i order m in
    let (r', ne, out) = unlink-IsRing buf xs i ys (subst (IsRing buf) e r) in
    subst (λ l. IsRing (push_front i (unlink i buf)) (i ∷ l)) (sym e')
      (push_front-IsRing (unlink i buf) i (xs ++ ys) ne out r')

pub moved-IsBuffers :
    (buf : ℕ → Buf) (order : List ℕ) (i : ℕ)
    → IsBuffers buf order
    → i ∈ order
    → IsBuffers (push_front i (unlink i buf)) (i ∷ remove i order)
moved-IsBuffers buf order i v m = record {
  ring = moved-IsRing buf order i v.ring m;
  size = omega (arith, length-remove i order m, v.size);
  inner_free =
      λ j h. ap (λ (b : Buf). b.lock.lk.locked) (moved-data i buf j) ∙ v.inner_free j (old j h);
  counted = λ j h. subst IsCounted (sym (moved-data i buf j)) (v.counted j (old j h));
  unique = λ j l h k used dev blockno.
      v.unique j l (old j h) (old l k)
        (λ e. used (ap (λ (b : Buf). b.dev) (moved-data i buf j) ∙ e))
        (sym (ap (λ (b : Buf). b.dev) (moved-data i buf j))
          ∙ dev
          ∙ ap (λ (b : Buf). b.dev) (moved-data i buf l))
        (sym (ap (λ (b : Buf). b.blockno) (moved-data i buf j))
          ∙ blockno
          ∙ ap (λ (b : Buf). b.blockno) (moved-data i buf l));
}
  where
    old : (j : ℕ) → j ∈ (i ∷ remove i order) → j ∈ order
    old j h = sym (has-remove i j order m) ∙ h

abbrev pub released : Buf → Buf
released b = record b { lock = sleeping false; refcnt = 0 }

-- The cache when buffer `i` has been given back.
abbrev pub give_back : ℕ → Machine → Machine
give_back i s = record s {
  cpu = enabled;
  bcache_lock = initlock;
  buf = push_front i (unlink i (update s.buf i (released (s.buf i))));
}

brelse_move-zero :
    (i : ℕ) (buf : ℕ → Buf) → (buf i).refcnt ≡ 0 → brelse_move i buf ≡ push_front i (unlink i buf)
unfolding brelse_move
brelse_move-zero i buf h = rw h

-- The end of brelse, where one reference is left.
brelse_count-one :
    (i : ℕ) (t : Machine) (b : Buf)
    → t.buf i ≡ b
    → b.refcnt ≡ 1
    → brelse_count i t
      ≡ ok tt (record t {
        cpu = enabled;
        bcache_lock = initlock;
        buf = push_front i (unlink i (update t.buf i (record b { refcnt = 0 })));
      })
unfolding brelse_count release
brelse_count-one i t b e one =
    rw (le→ltb (t.buf i).refcnt 1 (omega (arith, ap (λ (c : Buf). c.refcnt) e, one))) (
      ap (λ (f : ℕ → Buf). ok tt (record t { cpu = enabled; bcache_lock = initlock; buf = f }))
        (ap (λ (c : Buf). brelse_move i (update t.buf i (record c { refcnt = c.refcnt - 1 }))) e
          ∙ ap (λ (n : ℕ). brelse_move i (update t.buf i (record b { refcnt = n - 1 }))) one
          ∙ brelse_move-zero i (update t.buf i (record b { refcnt = 0 }))
              (ap (λ (c : Buf). c.refcnt) (update_self t.buf i (record b { refcnt = 0 })))))

-- brelse of a buffer that is out gives it back.
brelse_lem :
    (i : ℕ) (s : Machine)
    → s.bcache_lock.locked ≡ false
    → (s.buf i).lock.lk.locked ≡ false
    → (s.buf i).lock.locked ≡ true
    → (s.buf i).refcnt ≡ 1
    → brelse i s ≡ ok tt (give_back i s)
unfolding brelse
brelse_lem i s lock inner held one =
    ap (λ (r : Option (Bool × Cpu × Sleeplock)). and_then (put_held i s r) (brelse_held i))
      (holdingsleep_lem s.cpu (s.buf i).lock inner
        ∙ ap (λ (h : Bool). some (h, enabled, sleeping h)) held)
    ∙ ap (λ (r : Option (Cpu × Sleeplock)). and_then (put_lock i s1 r) then_count)
        (releasesleep_lem enabled (s1.buf i).lock (ap (λ (c : Buf). c.lock.lk.locked) at1))
    ∙ ap (λ (f : ℕ → Buf). then_count tt (record s { cpu = enabled; buf = f }))
        (ap (λ (c : Buf). update s1.buf i (record c { lock = sleeping false })) at1
          ∙ update-update s.buf i b1 b2)
    ∙ ap (λ (r : Option (Cpu × Spinlock)). and_then (put_bcache s2 r) (λ _. brelse_count i))
        (acquire-free enabled s.bcache_lock lock)
    ∙ brelse_count-one i s3 b2 (update_self s.buf i b2) one
    ∙ ap
        (λ (f : ℕ → Buf).
          ok tt
            (record s { cpu = enabled; bcache_lock = initlock; buf = push_front i (unlink i f) }))
        (update-update s.buf i b2 (released (s.buf i)))
  where
    b1 : Buf
    b1 = record (s.buf i) { lock = sleeping true }

    b2 : Buf
    b2 = record (s.buf i) { lock = sleeping false }

    s1 : Machine
    s1 = set_buf i b1 (record s { cpu = enabled })

    s2 : Machine
    s2 = set_buf i b2 (record s { cpu = enabled })

    s3 : Machine
    s3 = record s2 { cpu = record { intr = false }; bcache_lock = record { locked = true } }

    at1 : s1.buf i ≡ b1
    at1 = update_self s.buf i b1

    then_count : Unit {0} → Machine → Run Machine (Unit {0})
    then_count done t = and_then (put_bcache t (acquire t.cpu t.bcache_lock)) (λ _. brelse_count i)

brelse_unheld :
    (i : ℕ) (s : Machine)
    → (s.buf i).lock.lk.locked ≡ false
    → (s.buf i).lock.locked ≡ false
    → brelse i s ≡ panic "brelse: buf not locked"
unfolding brelse
brelse_unheld i s inner unheld =
    ap (λ (r : Option (Bool × Cpu × Sleeplock)). and_then (put_held i s r) (brelse_held i))
      (holdingsleep_lem s.cpu (s.buf i).lock inner
        ∙ ap (λ (h : Bool). some (h, enabled, sleeping h)) unheld)

-- What brelse promises.
abbrev pub brelse_list : ℕ → Bool → Machine → Run Machine (Unit {0})
brelse_list i true s = ok tt (give_back i s)
brelse_list i false s = panic "brelse: buf not locked"

-- On a well-formed cache, brelse of a buffer of the list that has been used succeeds if the buffer
-- is out and panics if it is not; giving the buffer back by the pointer writes moves it to the
-- front of the list and leaves the cache well formed.
pub brelse-IsCache :
    (i : ℕ) (s : Machine) (order : List ℕ)
    → IsCache s order
    → i ∈ order
    → (s.buf i).dev ≢ 0
    → (brelse i s ≡ brelse_list i (s.buf i).lock.locked s)
      × IsCache (give_back i s) (i ∷ remove i order)
brelse-IsCache i s order c m used = (
  elim (c.counted i m) [
    | inl out ↦
        brelse_lem i s c.lock_free (c.inner_free i m) out.0 out.1
        ∙ ap (λ h. brelse_list i h s) (sym out.0)
    | inr back ↦
        brelse_unheld i s (c.inner_free i m) back.0 ∙ ap (λ h. brelse_list i h s) (sym back.0)
  ],
  record {
    lock_free = refl;
    bufs =
        moved-IsBuffers (update s.buf i (released (s.buf i))) order i
          (update-IsBuffers s.buf order i (released (s.buf i)) c.bufs (record {
            next = refl;
            prev = refl;
            inner = refl;
            count = inr (refl, refl);
            sole = sole_of_unique s.buf order i c.bufs m used;
          }))
          m;
  },
)
