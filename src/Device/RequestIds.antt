-- ===== src/Device/RequestIds.antt =====
-- `RequestIds` of rust/src/device.rs, and the loop of `Device::next_request_id` over it.
use hidpin.Base.{
  ℕ, zero, suc, ◌+◌, ◌*◌, ◌/◌, ◌%◌, ◌^◌, ◌≤◌, ◌≡◌, ◌≢◌, Option, none, some, ◌==◌, if◌then◌else◌,
  arith, bit_or, bit_xor,
}

-- `RequestIds::new` at a time of `nanos` in the process `pid`; 64-bit words.
unfoldable pub new_seed : ℕ → ℕ → ℕ
new_seed nanos pid = bit_or (bit_xor (nanos % 2 ^ 64) (pid * 2 ^ 32 % 2 ^ 64)) 1

-- One step of the xorshift generator.
unfoldable pub xorshift : ℕ → ℕ
xorshift x =
    let a = bit_xor x (x * 2 ^ 13 % 2 ^ 64) in
    let b = bit_xor a (a / 2 ^ 7) in bit_xor b (b * 2 ^ 17 % 2 ^ 64)

-- The id that a new state gives.
unfoldable pub id_of : ℕ → ℕ
id_of x = x % 255 % 256 + 1

-- The loop of `next_request_id`, on the generator's state and the last id, for at most the rounds
-- given: the new state and the id. `none`: no other id came up in those rounds.
unfoldable pub next_request_id : ℕ → ℕ → ℕ → Option (ℕ × ℕ)
next_request_id zero seed last = none
next_request_id (suc rounds) seed last =
    let more = next_request_id rounds (xorshift seed) last in
    if id_of (xorshift seed) == last then more else some (xorshift seed, id_of (xorshift seed))

-- An id drawn is between 1 and 255 and is not the last one.
pub next_request_id-fresh :
    (rounds seed last : ℕ) {seed' id : ℕ}
    → next_request_id rounds seed last ≡ some (seed', id)
    → (1 ≤ id) × (id ≤ 255) × (id ≢ last)
unfolding next_request_id id_of
next_request_id-fresh zero seed last h = ground arith
next_request_id-fresh (suc rounds) seed last {seed'} {id} h =
    ground (arith, next_request_id-fresh rounds (xorshift seed) last {seed' = seed'} {id = id})

-- A new device has drawn no id, and its first draw returns at once.
pub first_request_id :
    (rounds seed : ℕ)
    → next_request_id (suc rounds) seed 0 ≡ some (xorshift seed, id_of (xorshift seed))
unfolding next_request_id id_of
first_request_id rounds seed = ground arith
