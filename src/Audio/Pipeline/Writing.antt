-- ===== src/Audio/Pipeline/Writing.antt =====
-- `AP` writes to its output every packet that an encoder gives, in order, between one header and one
-- trailer.
use audio_tool_api.Prelude.{◌≡◌, ◌≢◌}
use audio_tool_api.Effects.Keeps.{Keeps}
use audio_tool_api.Processor.Media.{wrong}
use audio_tool_api.Audio.Pipeline.{Ap}
use audio_tool_api.Audio.Pipeline.Order.{packets_given, packets_out, file_phase}

-- Behind an error.
abbrev pub IsOrderly : Ap → Type 0
IsOrderly s = (packets_out s.calls ≡ packets_given s.calls) × (file_phase s.calls ≢ wrong)
