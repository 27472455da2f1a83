-- ===== src/Cmd/Audio.antt =====
-- cmd/data/audio.go and cmd/data/video.go: what the control byte of a frame says.
pub mod Fields
use rtmp.Base.{ℕ, ◌*◌}
use Prim.Native.Nat.{bit_and, bit_xor}
use rtmp.Base.Bits.{shr}

unfoldable pub audio_codec : ℕ → ℕ
audio_codec control = shr (bit_and control 0xf0) 4

-- Go's `^` is the exclusive or: `2^((a.Control()&0x0c)>>2)` is no power of two. The rate is in half
-- kHz here, 11 for 5.5.
unfoldable pub rate : ℕ → ℕ
rate control = 11 * bit_xor 2 (shr (bit_and control 0x0c) 2)

unfoldable pub size : ℕ → ℕ
size control = 8 * bit_xor 2 (shr (bit_and control 0x02) 1)

unfoldable pub audio_type : ℕ → ℕ
audio_type control = bit_and control 0x01

unfoldable pub video_codec : ℕ → ℕ
video_codec control = shr (bit_and control 0x0f) 0

unfoldable pub video_type : ℕ → ℕ
video_type control = shr (bit_and control 0xf0) 4
