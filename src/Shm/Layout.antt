-- ===== src/Shm/Layout.antt =====
-- The registers and the rings of the region do not overlap.
use jack_router.Common.{
  ℕ, zero, suc, ◌+◌, ◌*◌, ◌≤◌, ◌<◌, ◌≡◌, ◌≢◌, ◌⊎◌, refl, ap, sym, ◌∙◌, arith, ◌==◌, if◌then◌else◌,
}
use jack_router.Shm.{Register, address, strbuf_up, strbuf_down, strbufsz, regsmap_size, max_streams}

-- The streams that exist.
abbrev pub InRange : Register → Type 0
InRange (Register.read_frame_number i) = i < max_streams
InRange (Register.write_frame_number i) = i < max_streams
InRange Register.seed = Unit {0}
InRange r = Unit {0}

number : Register → ℕ
number Register.number_time_stamps = 0
number Register.zero_host_time = 1
number Register.seed = 2
number Register.sync_mode = 3
number Register.buffer_size = 4
number Register.driver_status = 5
number Register.version = 6
number Register.daemon_alive = 7
number Register.hal_anchor_seq = 8
number Register.hal_anchor_host_time = 9
number Register.hal_anchor_sample_time = 10
number Register.hal_input_read_head = 11
number Register.hal_output_write_head = 12
number Register.hal_n_frames = 13
number Register.hal_sample_rate = 14
number (Register.read_frame_number i) = 16 + i * 2
number (Register.write_frame_number i) = 17 + i * 2

address-number : (r : Register) → address r ≡ 0x100 + 8 * number r
unfolding address number
address-number (Register.read_frame_number i) = omega arith
address-number (Register.write_frame_number i) = omega arith
address-number r = refl

register_at : ℕ → Register
register_at n =
    if n == 0
    then Register.number_time_stamps
    else if n == 1
    then Register.zero_host_time
    else if n == 2
    then Register.seed
    else if n == 3
    then Register.sync_mode
    else if n == 4
    then Register.buffer_size
    else if n == 5
    then Register.driver_status
    else if n == 6
    then Register.version
    else if n == 7
    then Register.daemon_alive
    else if n == 8
    then Register.hal_anchor_seq
    else if n == 9
    then Register.hal_anchor_host_time
    else if n == 10
    then Register.hal_anchor_sample_time
    else if n == 11
    then Register.hal_input_read_head
    else if n == 12
    then Register.hal_output_write_head
    else if n == 13
    then Register.hal_n_frames
    else if n == 14
    then Register.hal_sample_rate
    else if n == 16
    then Register.read_frame_number 0
    else if n == 17
    then Register.write_frame_number 0
    else if n == 18
    then Register.read_frame_number 1
    else Register.write_frame_number 1

register_at-number : (r : Register) → InRange r → register_at (number r) ≡ r
unfolding register_at number
register_at-number (Register.read_frame_number zero) h = refl
register_at-number (Register.read_frame_number (suc zero)) h = refl
register_at-number (Register.read_frame_number (suc (suc i))) h = absurd (omega arith)
register_at-number (Register.write_frame_number zero) h = refl
register_at-number (Register.write_frame_number (suc zero)) h = refl
register_at-number (Register.write_frame_number (suc (suc i))) h = absurd (omega arith)
register_at-number r h = refl

number-injective : (r s : Register) → InRange r → InRange s → number r ≡ number s → r ≡ s
number-injective r s hr hs e =
    sym (register_at-number r hr) ∙ ap register_at e ∙ register_at-number s hs

number-lt : (r : Register) → InRange r → number r < 20
unfolding number
number-lt (Register.read_frame_number i) h = omega arith
number-lt (Register.write_frame_number i) h = omega arith
number-lt r h = omega arith

apart_words :
    (r s : Register)
    → number r ≢ number s
    → (address r + 8 ≤ address s) ⊎ (address s + 8 ≤ address r)
apart_words r s apart = ground (arith, address-number r, address-number s)

-- Any two registers of `attach_shm`, for streams that exist, occupy different eight-byte words, and
-- all of them lie between the base and the first ring.
pub registers_disjoint :
    (r s : Register)
    → InRange r
    → InRange s
    → r ≢ s
    → ((address r + 8 ≤ address s) ⊎ (address s + 8 ≤ address r)) × (address r + 8 ≤ strbuf_up 0)
registers_disjoint r s hr hs ne = (
  apart_words r s (λ e. ne (number-injective r s hr hs e)),
  omega (arith, address-number r, number-lt r hr),
)

-- The bytes from `a` to `a + n` and those from `b` to `b + n` have none in common.
abbrev Apart : ℕ → ℕ → ℕ → Type 0
Apart n a b = (a + n ≤ b) ⊎ (b + n ≤ a)

-- The rings of streams that exist lie inside the mapping, an upstream ring shares no byte with a
-- downstream one, and rings of different streams share none.
pub rings_disjoint :
    (i j : ℕ)
    → i < max_streams
    → j < max_streams
    → (strbuf_up i + strbufsz ≤ regsmap_size)
      × (strbuf_down i + strbufsz ≤ regsmap_size)
      × Apart strbufsz (strbuf_up i) (strbuf_down j)
      × ((i ≡ j)
          ⊎ (Apart strbufsz (strbuf_up i) (strbuf_up j)
              × Apart strbufsz (strbuf_down i) (strbuf_down j)))
rings_disjoint i j hi hj = (omega arith, omega arith, ground arith, ground arith)
