-- ===== src/Stream/Reader.antt =====
-- The loop of `subscribe` (indexer/internal/sub/sub.go), `SubscribeEvents`
-- (inference-node/internal/chain/client.go) and the harness: the events of a stream.
use l1_modular_blockchain.Common.{Option, none, some, List, [], ◌∷◌}
use l1_modular_blockchain.Types.{Event}
use l1_modular_blockchain.Stream.Text.{Text, codes, trim_line, trim_space, after_prefix, lines_from}
use l1_modular_blockchain.Stream.Writer.{EventJson}

abbrev filled : Text → Option Text
filled [] = none
filled (c ∷ cs) = some (c ∷ cs)

abbrev data_after : Option Text → Option Text
data_after none = none
data_after (some s) = filled (trim_space s)

-- The data of a line, if it has some.
unfoldable pub line_data : Text → Option Text
unfolding codes
line_data line = data_after (after_prefix (codes "data:") (trim_line line))

-- What cannot be decoded is skipped.
abbrev pub decoded : EventJson → Option Text → Option Event
decoded json none = none
decoded json (some data_) = json.unmarshal data_

abbrev pub add_decoded : Option Event → List Event → List Event
add_decoded none es = es
add_decoded (some e) es = e ∷ es

unfoldable pub events_of_lines : EventJson → List Text → List Event
unfolding line_data
events_of_lines json [] = []
events_of_lines json (line ∷ lines) =
    add_decoded (decoded json (line_data line)) (events_of_lines json lines)

unfoldable pub read_stream : EventJson → Text → List Event
unfolding events_of_lines
read_stream json stream = events_of_lines json (lines_from [] stream)
