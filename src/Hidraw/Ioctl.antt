-- ===== src/Hidraw/Ioctl.antt =====
-- The request numbers of rust/src/hidraw.rs, as the kernel encodes them.
use hidpin.Base.{ℕ, ◌+◌, ◌*◌, ◌/◌, ◌%◌, ◌^◌, ◌<◌, ◌≡◌, ap, ◌∙◌, bit_or, arith}
use hidpin.Base.Bits.{bit_or_below}

abbrev pub ioc_write : ℕ
ioc_write = 1

abbrev pub ioc_read : ℕ
ioc_read = 2

unfoldable pub hid_ioc : ℕ → ℕ → ℕ
hid_ioc nr size =
    bit_or (bit_or (bit_or (bit_or ioc_write ioc_read * 2 ^ 30) (size * 2 ^ 16)) (b'H' * 2 ^ 8)) nr

unfoldable pub hidioc_s_feature : ℕ → ℕ
hidioc_s_feature size = hid_ioc 0x06 size

unfoldable pub hidioc_g_feature : ℕ → ℕ
hidioc_g_feature size = hid_ioc 0x07 size

unfoldable pub hidioc_g_input : ℕ → ℕ
hidioc_g_input size = hid_ioc 0x0A size

hid_ioc-sum :
    (nr size : ℕ)
    → nr < 2 ^ 8
    → size < 2 ^ 14
    → hid_ioc nr size ≡ 3 * 2 ^ 30 + size * 2 ^ 16 + b'H' * 2 ^ 8 + nr
unfolding hid_ioc
hid_ioc-sum nr size small fits =
    ap (λ x. bit_or (bit_or x (b'H' * 2 ^ 8)) nr) (sized ∙ grouped)
    ∙ (ap (λ x. bit_or x nr)
          (bit_or_below 16 (b'H' * 2 ^ 8) (size + 3 * 2 ^ 14) (omega arith) ∙ regrouped)
        ∙ (bit_or_below 8 nr (b'H' + (size + 3 * 2 ^ 14) * 2 ^ 8) small ∙ omega arith))
  where
    sized : bit_or (3 * 2 ^ 30) (size * 2 ^ 16) ≡ size * 2 ^ 16 + 3 * 2 ^ 30
    sized = bit_or_below 30 (size * 2 ^ 16) 3 (omega arith)

    grouped : size * 2 ^ 16 + 3 * 2 ^ 30 ≡ (size + 3 * 2 ^ 14) * 2 ^ 16
    grouped = omega arith

    regrouped :
        b'H' * 2 ^ 8 + (size + 3 * 2 ^ 14) * 2 ^ 16 ≡ (b'H' + (size + 3 * 2 ^ 14) * 2 ^ 8) * 2 ^ 8
    regrouped = omega arith

-- The fields of a request stand side by side: from the request of a number below 256 and a buffer of
-- fewer than 16384 bytes, the kernel reads back the direction, the size, the type and the number.
pub hid_ioc-fields :
    (nr size : ℕ)
    → nr < 2 ^ 8
    → size < 2 ^ 14
    → (hid_ioc nr size / 2 ^ 30 ≡ 3)
      × (hid_ioc nr size / 2 ^ 16 % 2 ^ 14 ≡ size)
      × (hid_ioc nr size / 2 ^ 8 % 2 ^ 8 ≡ b'H')
      × (hid_ioc nr size % 2 ^ 8 ≡ nr)
hid_ioc-fields nr size small fits = (
  omega (arith, hid_ioc-sum nr size small fits),
  omega (arith, hid_ioc-sum nr size small fits),
  omega (arith, hid_ioc-sum nr size small fits),
  omega (arith, hid_ioc-sum nr size small fits),
)
