-- ===== src/RingBuffer.antt =====
-- crates/ziggurat-zigbee/src/ring_buffer.rs: the last values pushed, in a fixed array.
pub mod Window
use ziggurat.Base.{ℕ, ◌+◌, ◌%◌, Bool, List, length, set, take, ◌==◌, ltb, if◌then◌else◌, replicate}

-- `RingBuffer<T, N>`; `N` is the length of `values`.
pub record RingBuffer {ℓ} (A : Type ℓ) : Type ℓ where
  pub values : List A
  pub len : ℕ
  pub next : ℕ

module _ {ℓ} {A : Type ℓ} where
  unfoldable pub capacity : RingBuffer A → ℕ
  capacity r = length r.values

  unfoldable pub new : ℕ → A → RingBuffer A
  new n default = record { values = replicate n default; len = 0; next = 0 }

  -- `self.len + 1` and `self.next + 1` are sums of `u8`, with the wrap of a release build. With fewer
  -- than 255 slots they do not pass 255; with 255, a build with overflow checks panics there.
  unfoldable pub push : RingBuffer A → A → RingBuffer A
  unfolding capacity
  push r v = record {
    values = set r.values r.next v;
    len = let count = (r.len + 1) % 256 in if ltb count (capacity r) then count else capacity r;
    next = (r.next + 1) % 256 % capacity r;
  }

  pub clear : RingBuffer A → RingBuffer A
  clear r = record r { len = 0; next = 0 }

  unfoldable pub is_full : RingBuffer A → Bool
  unfolding capacity
  is_full r = r.len == capacity r

  unfoldable pub is_empty : RingBuffer A → Bool
  is_empty r = r.len == 0

  -- `values()`: the stored values, rotated once the ring has wrapped.
  unfoldable pub stored : RingBuffer A → List A
  stored r = take r.len r.values
