-- ===== src/Cmd/Conn/Names.antt =====
-- The names of the commands of cmd/conn/.
use rtmp.Base.{
  ◌⊎◌, ◌≡◌, ◌≢◌, refl, sym, ap, ◌∙◌, Option, none, some, inl, inr, Bool-cases, if◌then◌else◌, List,
  [], ◌∷◌, All,
}
use Prim.Native.String.{String}
use text.Mathlib.Text
use text.Mathlib.TextEquality.{eq_iff}
use rtmp.Cmd.Conn.{
  Command, connect_command, create_stream_command, release_command, fc_publish_command,
  fc_unpublish_command, get_stream_length, find_factory, default_typs,
}

-- The name of a command as a client sends it.
abbrev pub command_name : Command → String
command_name connect_command = "connect"
command_name create_stream_command = "createStream"
command_name release_command = "releaseStream"
command_name fc_publish_command = "FCPublish"
command_name fc_unpublish_command = "FCUnpublish"
command_name get_stream_length = "getStreamLength"

-- The commands that the default parser makes.
abbrev pub parsed : Command → Option Command
parsed fc_unpublish_command = none
parsed k = some k

pub parsed_cases : (k : Command) → (parsed k ≡ none) ⊎ (parsed k ≡ some k)
parsed_cases fc_unpublish_command = inl refl
parsed_cases connect_command = inr refl
parsed_cases create_stream_command = inr refl
parsed_cases release_command = inr refl
parsed_cases fc_publish_command = inr refl
parsed_cases get_stream_length = inr refl

-- A name finds the command whose name it is, and not "FCUnpublish".
pub find_factory-command_name :
    (k : Command) → find_factory default_typs (command_name k) ≡ parsed k
unfolding find_factory
find_factory-command_name connect_command = refl
find_factory-command_name create_stream_command = refl
find_factory-command_name release_command = refl
find_factory-command_name fc_publish_command = refl
find_factory-command_name fc_unpublish_command = refl
find_factory-command_name get_stream_length = refl

-- A table of names, with any values, has nothing for a name that is not in it.
pub find_factory-absent {ℓ} :
    {K : Type ℓ} (typs : List (String × K)) (name : String)
    → All (λ e. name ≢ e.0) typs
    → find_factory typs name ≡ none
unfolding find_factory
find_factory-absent [] name h = refl
find_factory-absent ((key, k) ∷ typs) name (h, hs) = elim (Bool-cases (Text.◌==◌ key name)) [
  | inl e ↦ absurd (h (sym ((eq_iff key name).0 e)))
  | inr e ↦
      ap (λ b. if b then some k else find_factory typs name) e ∙ find_factory-absent typs name hs
]

abbrev pub IsUnknown : String → Type 0
IsUnknown name = (k : Command) → name ≢ command_name k

pub find_factory-unknown : (name : String) → IsUnknown name → find_factory default_typs name ≡ none
find_factory-unknown name h = find_factory-absent default_typs name (
  h connect_command,
  (h create_stream_command, (h release_command, (h fc_publish_command, (h get_stream_length, tt)))),
)
