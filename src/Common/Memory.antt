-- ===== src/Common/Memory.antt =====
-- Buffers of bytes, with the accesses that memcpy and a dereference make. `none` is an access out
-- of the buffer's bounds, which C leaves undefined.
use dns_server.Common.Lists.{
  length, take, drop, length-append, take-append, drop-append, take-append-drop, length-take,
  length-drop,
}
use dns_server.Common.Tests.{leb, le→leb, lt→leb, if◌then◌else◌}
use dns_server.Common.Text.{Bytes}
use Prim.Native.Nat.{ℕ, ◌+◌, ◌≤◌, ◌<◌}
use mathlib.Core.Path.{◌≡◌, sym}
use mathlib.Core.List.{◌++◌, append_assoc}
use mathlib.Core.Option.{Option, none, some}
use native.Mathlib.Omega.{arith}

-- `memcpy(dst, buf + at, n)`: the bytes copied.
unfoldable pub read_at : Bytes → ℕ → ℕ → Option Bytes
read_at buf at n = if leb (at + n) (length buf) then some (take n (drop at buf)) else none

-- `memcpy(buf + at, src, …)`: the buffer afterwards.
unfoldable pub write_at : Bytes → ℕ → Bytes → Option Bytes
write_at buf at src =
    if leb (at + length src) (length buf)
    then some (take at buf ++ (src ++ drop (at + length src) buf))
    else none

pub read_at-append :
    (pre mid post : Bytes) (at n : ℕ)
    → length pre ≡ at
    → length mid ≡ n
    → read_at (pre ++ (mid ++ post)) at n ≡ some mid
unfolding read_at
read_at-append pre mid post at n hp hm = rw (
  le→leb (at + n) (length (pre ++ (mid ++ post)))
      (omega (arith, length-append pre (mid ++ post), length-append mid post)),
  drop-append at pre (mid ++ post) hp,
  take-append n mid post hm,
)

pub read_at-none : (buf : Bytes) (at n : ℕ) → length buf < at + n → read_at buf at n ≡ none
unfolding read_at
read_at-none buf at n h = rw (lt→leb (at + n) (length buf) h)

pub read_at-some :
    (buf : Bytes) (at n : ℕ) → at + n ≤ length buf → read_at buf at n ≡ some (take n (drop at buf))
unfolding read_at
read_at-some buf at n h = rw (le→leb (at + n) (length buf) h)

-- A write replaces exactly the bytes at its place.
pub write_at-append :
    (pre old post src : Bytes) (at : ℕ)
    → length pre ≡ at
    → length old ≡ length src
    → write_at (pre ++ (old ++ post)) at src ≡ some (pre ++ (src ++ post))
unfolding write_at
write_at-append pre old post src at hp ho = rw (
  le→leb (at + length src) (length (pre ++ (old ++ post)))
      (omega (arith, length-append pre (old ++ post), length-append old post)),
  take-append at pre (old ++ post) hp,
  drop_past,
)
  where
    drop_past : drop (at + length src) (pre ++ (old ++ post)) ≡ post
    drop_past =
        rw (← append_assoc pre old post)
          (drop-append (at + length src) (pre ++ old) post (omega (arith, length-append pre old)))

pub write_at-none :
    (buf : Bytes) (at : ℕ) (src : Bytes) → length buf < at + length src → write_at buf at src ≡ none
unfolding write_at
write_at-none buf at src h = rw (lt→leb (at + length src) (length buf) h)

-- A write leaves the buffer as long as it was.
pub length-write_at :
    (buf : Bytes) (at : ℕ) (src : Bytes) {buf' : Bytes}
    → write_at buf at src ≡ some buf'
    → length buf' ≡ length buf
unfolding write_at
length-write_at buf at src e = ground (
  arith,
  length-append (take at buf) (src ++ drop (at + length src) buf),
  length-append src (drop (at + length src) buf),
  length-take at buf,
  length-drop (at + length src) buf,
)

-- Any buffer that is long enough splits at a length.
pub split_at :
    (buf : Bytes) (n : ℕ)
    → n ≤ length buf
    → (pre : Bytes) × (post : Bytes) × (buf ≡ pre ++ post) × (length pre ≡ n)
split_at buf n h =
    (take n buf, drop n buf, sym (take-append-drop n buf), omega (arith, length-take n buf))
