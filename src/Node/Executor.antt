-- ===== src/Node/Executor.antt =====
-- inference-node/internal/executor/llama_http/executor.go. The model server is a function of the
-- prompt, which may fail.
use Prim.Native.String.{◌++◌ as text_append}
use l1_modular_blockchain.Common.{ℕ, String, Option, none, some, List, if◌then◌else◌, str_eq}
use l1_modular_blockchain.Tx.Wire.{Codec, encode_hex}

-- `POST /completion` of llama-server with temperature 0, and a text's bytes.
pub record Model : Type 0 where
  pub complete : String → Option String
  pub bytes_of : String → List ℕ

pub record Execution : Type 0 where
  pub output : String
  pub output_hash : String
  pub output_uri : String

-- `hex.EncodeToString` of SHA-256
abbrev pub hash_of : Codec → Model → String → String
hash_of codec model text = encode_hex (codec.sha256 (model.bytes_of text))

abbrev pub execution_of : Codec → Model → String → Execution
execution_of codec model output = record {
  output = output;
  output_hash = hash_of codec model output;
  output_uri = text_append "inline:" (hash_of codec model output);
}

abbrev nonempty_execution : Codec → Model → Option String → Option Execution
nonempty_execution codec model none = none
nonempty_execution codec model (some content) =
    if str_eq content "" then none else some (execution_of codec model content)

unfoldable pub execute : Codec → Model → String → Option Execution
execute codec model prompt = nonempty_execution codec model (model.complete prompt)
