-- ===== src/Store/Changes.antt =====
-- What it is to take a block from the free blocks of riscv-os/kernel/fs.c, and to add one.
use os.Common.{
  ℕ, ◌/◌, ◌≤◌, ◌<◌, ◌≡◌, ◌≢◌, sym, ap, ◌∙◌, subst, arith, true, not, ◌&&◌, ◌||◌, ◌==◌, List, ◌∈◌,
  update_self, update_ne,
}
use os.Bio.Release.{unplaced}
use os.Machine.{above, Machine, Block, Superblock, Above, bsize, fssize}
use os.Bytes.{clear_bytes}
use os.Fs.Bitmap.{clear, set_bit, clear_bit}
use os.Fs.Masks.{set_bit-clear_bit, set_bit_width, clear_bit_width}
use os.Store.{IsOpen}
use os.Store.Updates.{IsDone}
use os.Store.Blocks.{bits, is_free, IsBitmap, freed, marked, allocated}

-- `b` has been taken from the free blocks, and the disk has zeros there; what else is on the disk
-- is as before.
pub record IsTaken (s : Machine) (out : List ℕ) (b : ℕ) (t : Machine) : Type 0 where
  pub is_open : IsOpen t out
  pub bitmap : IsBitmap t
  pub kept : (j : ℕ) → j ∈ out → unplaced (t.buf j) ≡ unplaced (s.buf j)
  pub log : t.log ≡ s.log
  pub above_eq : above t ≡ above s
  pub free : (j : ℕ) → is_free t j ≡ (not (j == b) && is_free s j)
  pub zeros : (i : ℕ) → i < bsize → t.ramdisk b i ≡ 0
  pub others : (j : ℕ) → j ≢ b → j ≢ s.sb.bmapstart → t.ramdisk j ≡ s.ramdisk j

-- `b` has been added to them.
pub record IsFreed (s : Machine) (out : List ℕ) (b : ℕ) (t : Machine) : Type 0 where
  pub is_open : IsOpen t out
  pub kept : (j : ℕ) → j ∈ out → unplaced (t.buf j) ≡ unplaced (s.buf j)
  pub log : t.log ≡ s.log
  pub above_eq : above t ≡ above s
  pub free : (j : ℕ) → is_free t j ≡ ((j == b) || is_free s j)
  pub others : (j : ℕ) → j ≢ s.sb.bmapstart → t.ramdisk j ≡ s.ramdisk j

-- The place of the bitmap after a step.
same_sb : (s t : Machine) (out : List ℕ) (d : ℕ → Block) → IsDone s out d t → t.sb ≡ s.sb
same_sb s t out d r = ap (λ (a : Above). a.sb) r.above_eq

bits_after :
    (s t : Machine) (out : List ℕ) (d : ℕ → Block) → IsDone s out d t → bits t ≡ d s.sb.bmapstart
bits_after s t out d r =
    ap (λ (x : Superblock). t.ramdisk x.bmapstart) (same_sb s t out d r)
    ∙ ap (λ (e : ℕ → Block). e s.sb.bmapstart) r.ramdisk

module _ (s : Machine) (out : List ℕ) (b : ℕ) (t : Machine) (m : IsBitmap s)
    (free : is_free s b ≡ true) (r : IsDone s out (allocated s b) t) where
  apart_bitmap : s.sb.bmapstart ≢ b
  apart_bitmap e = cc (m.own, free, ap (is_free s) e)

  bits_taken : bits t ≡ set_bit (bits s) b
  bits_taken =
      bits_after s t out (allocated s b) r
      ∙ update_ne (marked s b) b s.sb.bmapstart (clear_bytes (marked s b b) 0 bsize) apart_bitmap
      ∙ update_self s.ramdisk s.sb.bmapstart (set_bit (bits s) b)

  free_taken : (j : ℕ) → is_free t j ≡ (not (j == b) && is_free s j)
  free_taken j =
      ap (λ (x : Block). clear x j) bits_taken
      ∙ (set_bit-clear_bit (bits s) b j (m.bytes (b / 8))).0

  zeros_taken : (i : ℕ) → i < bsize → t.ramdisk b i ≡ 0
  unfolding clear_bytes
  zeros_taken i h =
      ap (λ (d : ℕ → Block). d b i) r.ramdisk
      ∙ ap (λ (x : Block). x i) (update_self (marked s b) b (clear_bytes (marked s b b) 0 bsize))
      ∙ (ground arith)

  pub allocated-IsTaken : IsTaken s out b t
  allocated-IsTaken = record {
    is_open = r.is_open;
    kept = r.kept;
    log = r.log;
    above_eq = r.above_eq;
    bitmap = record {
      size =
          subst (λ (x : Superblock). x.size ≤ fssize) (sym (same_sb s t out (allocated s b) r))
            m.size;
      inside =
          subst (λ (x : Superblock). x.bmapstart < fssize) (sym (same_sb s t out (allocated s b) r))
            m.inside;
      own =
          ap (λ (x : Superblock). is_free t x.bmapstart) (same_sb s t out (allocated s b) r)
          ∙ free_taken s.sb.bmapstart
          ∙ (ground (arith, m.own));
      bytes =
          subst (λ (x : Block). (i : ℕ) → x i < 256) (sym bits_taken)
            (set_bit_width (bits s) b m.bytes);
    };
    free = free_taken;
    zeros = zeros_taken;
    others = λ j ne ne'.
        ap (λ (d : ℕ → Block). d j) r.ramdisk
        ∙ update_ne (marked s b) b j (clear_bytes (marked s b b) 0 bsize) ne
        ∙ update_ne s.ramdisk s.sb.bmapstart j (set_bit (bits s) b) ne';
  }

module _ (s : Machine) (out : List ℕ) (b : ℕ) (t : Machine) (m : IsBitmap s)
    (r : IsDone s out (freed s b) t) where
  bits_freed : bits t ≡ clear_bit (bits s) b
  bits_freed =
      bits_after s t out (freed s b) r ∙ update_self s.ramdisk s.sb.bmapstart (clear_bit (bits s) b)

  pub IsDone-IsFreed : IsFreed s out b t
  IsDone-IsFreed = record {
    is_open = r.is_open;
    kept = r.kept;
    log = r.log;
    above_eq = r.above_eq;
    free = λ j.
        ap (λ (x : Block). clear x j) bits_freed
        ∙ (set_bit-clear_bit (bits s) b j (m.bytes (b / 8))).1;
    others = λ j ne.
        ap (λ (d : ℕ → Block). d j) r.ramdisk
        ∙ update_ne s.ramdisk s.sb.bmapstart j (clear_bit (bits s) b) ne;
  }

  pub freed-IsBitmap : b ≢ s.sb.bmapstart → IsBitmap t
  freed-IsBitmap ne = record {
    size = subst (λ (x : Superblock). x.size ≤ fssize) (sym (same_sb s t out (freed s b) r)) m.size;
    inside =
        subst (λ (x : Superblock). x.bmapstart < fssize) (sym (same_sb s t out (freed s b) r))
          m.inside;
    own =
        ap (λ (x : Superblock). is_free t x.bmapstart) (same_sb s t out (freed s b) r)
        ∙ IsDone-IsFreed.free s.sb.bmapstart
        ∙ (ground (arith, m.own));
    bytes =
        subst (λ (x : Block). (i : ℕ) → x i < 256) (sym bits_freed)
          (clear_bit_width (bits s) b m.bytes);
  }
