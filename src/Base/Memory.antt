-- ===== src/Base/Memory.antt =====
-- memcpy and memset on arrays of a fixed length, which are lists of their bytes.
use Prim.Native.Nat.{ℕ, ◌≤◌, ◌<◌}
use mathlib.Core.Path.{◌≡◌, ◌∙◌}
use mathlib.Core.List.{List, ◌++◌, append-nil}
use mathlib.Core.Bool.{Bool, true, false, ◌&&◌}
use native.Mathlib.Omega.{arith}
use arpwith_mfc.Base.Tests.{leb}
use arpwith_mfc.Base.Lists.{
  length, take, drop, length-append, length-take, length-drop, take-append, take_all, drop_all,
}
use arpwith_mfc.Base.Outcome.{Result, ok, ◌>>◌, require}

-- Whether the memory from a pointer on has at least `n` bytes.
unfoldable pub has_bytes : ℕ → List ℕ → Bool
has_bytes n b = leb n (length b)

pub has_bytes-le : (n : ℕ) (b : List ℕ) → n ≤ length b → has_bytes n b ≡ true
unfolding has_bytes
has_bytes-le n b h = ground arith

pub has_bytes-lt : (n : ℕ) (b : List ℕ) → length b < n → has_bytes n b ≡ false
unfolding has_bytes
has_bytes-lt n b h = ground arith

pub le-has_bytes : (n : ℕ) (b : List ℕ) → has_bytes n b ≡ true → n ≤ length b
unfolding has_bytes
le-has_bytes n b h = ground arith

pub lt-has_bytes : (n : ℕ) (b : List ℕ) → has_bytes n b ≡ false → length b < n
unfolding has_bytes
lt-has_bytes n b h = ground arith

-- `memcpy(dst, src, n)`: the first `n` bytes of `dst` are replaced, the rest stays. A copy that
-- leaves either array is a fault.
unfoldable pub memcpy : List ℕ → List ℕ → ℕ → Result (List ℕ)
memcpy dst src n = do
  require (leb n (length dst) && leb n (length src))
  ok (take n src ++ drop n dst)

pub memcpy-ok :
    (dst src : List ℕ) (n : ℕ)
    → n ≤ length dst
    → n ≤ length src
    → memcpy dst src n ≡ ok (take n src ++ drop n dst)
unfolding memcpy
memcpy-ok dst src n h k = ground arith

pub length-copied :
    (dst src : List ℕ) (n : ℕ)
    → n ≤ length dst
    → n ≤ length src
    → length (take n src ++ drop n dst) ≡ length dst
length-copied dst src n h k =
    omega (arith, length-append (take n src) (drop n dst), length-take n src, length-drop n dst)

-- What was copied is what is read back.
pub take-copied :
    (dst src : List ℕ) (n : ℕ) → n ≤ length src → take n (take n src ++ drop n dst) ≡ take n src
take-copied dst src n k =
    take-append n (take n src) (drop n dst) (omega (arith, length-take n src))
    ∙ take_all n (take n src) (omega (arith, length-take n src))

-- A copy over a whole array.
pub copied_all :
    (dst src : List ℕ) (n : ℕ) → length dst ≡ n → length src ≡ n → memcpy dst src n ≡ ok src
unfolding memcpy
copied_all dst src n d s =
    memcpy-ok dst src n (omega arith) (omega arith)
    ∙ rw (take_all n src (omega arith), drop_all n dst (omega arith), append-nil)
