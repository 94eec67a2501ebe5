-- ===== src/Examples/Commands.antt =====
-- Command messages.
use java_iotwrap.Common.{
  ◌+◌, ◌≤◌, ◌≡◌, ◌≢◌, refl, [], ◌∷◌, ◌++◌, none, some, arith, Bytes, codes, length, All,
}
use java_iotwrap.Command.{command_max_len, strstr, strchr, command_name, quoted_name}
use java_iotwrap.Command.Sound.{command_name_sound}
use java_iotwrap.Command.Complete.{command_name_complete, command_needs_comma}
use java_iotwrap.Examples.Data.{reset}

abbrev message : Bytes
message = codes "{\"command\":\"reset\",\"n\":1}"

-- The same command as the last member of the object.
abbrev lone_message : Bytes
lone_message = codes "{\"n\":1,\"command\":\"reset\"}"

message_runs : command_name message ≡ some reset
unfolding command_name quoted_name strstr strchr
message_runs = refl

command_name_sound_example :
    (before : Bytes) × (after : Bytes) × (message ≡ before ++ b'"' ∷ (reset ++ b'"' ∷ after))
    × All (λ b. b ≢ b'"') reset
    × (length reset + 1 ≤ command_max_len)
command_name_sound_example = command_name_sound message reset message_runs

command_name_complete_example : command_name message ≡ some reset
unfolding strstr
command_name_complete_example =
    command_name_complete message (codes "\"command\"") [] reset (codes ",\"n\":1}") 1 refl refl
      (omega arith) tt tt (omega arith) (omega arith) (ground arith)

command_needs_comma_example : command_name lone_message ≡ none
unfolding strstr strchr
command_needs_comma_example = command_needs_comma lone_message 7 16 refl refl (omega arith)
