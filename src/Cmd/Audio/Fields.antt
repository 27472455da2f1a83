-- ===== src/Cmd/Audio/Fields.antt =====
-- The fields of the control byte in cmd/data/audio.go and cmd/data/video.go as numbers.
use rtmp.Base.{ℕ, ◌+◌, ◌*◌, ◌/◌, ◌%◌, ◌<◌, ◌≡◌, refl, arith}
use rtmp.Base.Bits.{same_table, same_table_lem}
use rtmp.Cmd.Audio.{audio_codec, rate, size, audio_type, video_codec, video_type}

-- The size of a frame is 16 or 24 by the second lowest bit, and the rate, in half kHz, is 22, 33, 0 or
-- 11 by the two bits above it.
size-rate :
    (b : ℕ) → b < 256 → (size b ≡ 16 + 8 * (b / 2 % 2)) × (rate b ≡ 11 * ((b / 4 % 4 + 2) % 4))
unfolding same_table size rate
size-rate b h = (
  same_table_lem size (λ x. 16 + 8 * (x / 2 % 2)) 256 b h refl,
  same_table_lem rate (λ x. 11 * ((x / 4 % 4 + 2) % 4)) 256 b h refl,
)

-- Of every byte: the codec and the type of a video frame are its two halves, and those of an audio
-- frame its upper half and its lowest bit; the size of an audio frame is 16 or 24 by the second lowest
-- bit, and its rate, in half kHz, is 22, 33, 0 or 11 by the two bits above that.
pub control_fields :
    (b : ℕ)
    → b < 256
    → (video_type b * 16 + video_codec b ≡ b)
      × (video_codec b < 16)
      × (audio_codec b ≡ b / 16)
      × (audio_type b ≡ b % 2)
      × (size b ≡ 16 + 8 * (b / 2 % 2))
      × (rate b ≡ 11 * ((b / 4 % 4 + 2) % 4))
unfolding same_table audio_codec audio_type video_codec video_type
control_fields b h = (
  same_table_lem (λ x. video_type x * 16 + video_codec x) (λ x. x) 256 b h refl,
  (omega (arith, same_table_lem video_codec (λ x. x % 16) 256 b h refl)),
  same_table_lem audio_codec (λ x. x / 16) 256 b h refl,
  same_table_lem audio_type (λ x. x % 2) 256 b h refl,
  (size-rate b h).0,
  (size-rate b h).1,
)
