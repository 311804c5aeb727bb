-- ===== src/NcRpc.antt =====
-- internal/ncrpc/types.go and cap.go: requests, replies, and the capabilities that are advertised. A
-- message's documents are written by Encode and read by Decode.
pub mod Encode
pub mod Decode
mod Tests
pub mod Samples
use go_lab_netconf.Base.{String, Bool, List, [], ◌∷◌, Option, Bytes}

-- A filter that is absent is `none`.
pub record Filter : Type 0 where
  pub type : String
  pub select : String
  pub inner : Bytes

pub record Rpc : Type 0 where
  pub message_id : String
  pub name : String
  pub namespace : String
  pub source : String
  pub target : String
  pub filter : Option Filter
  pub default_op : String
  pub config : Bytes
  pub session_id : String
  pub stream : String

pub record Error : Type 0 where
  pub type : String
  pub tag : String
  pub severity : String
  pub app_tag : String
  pub path : String
  pub message : String

-- A nil `Data` is `none`.
pub record Reply : Type 0 where
  pub message_id : String
  pub is_ok : Bool
  pub payload : Option Bytes
  pub errors : List Error

abbrev pub cap_base10 : String
cap_base10 = "urn:ietf:params:netconf:base:1.0"

abbrev pub cap_base11 : String
cap_base11 = "urn:ietf:params:netconf:base:1.1"

abbrev pub advertised_capabilities : List String
advertised_capabilities =
    cap_base10 ∷ cap_base11 ∷ "urn:ietf:params:netconf:capability:candidate:1.0"
    ∷ "urn:ietf:params:netconf:capability:startup:1.0"
    ∷ "urn:ietf:params:netconf:capability:validate:1.0"
    ∷ "urn:ietf:params:netconf:capability:notification:1.0" ∷ []

-- `SessionID` is empty on a client's hello.
pub record Hello : Type 0 where
  pub capabilities : List String
  pub session_id : String

-- One decoded document; what it is not is none.
pub record Message : Type 0 where
  pub hello : Option Hello
  pub rpc : Option Rpc
  pub reply : Option Reply

-- A result, or the text of an error.
pub data Parsed {ℓ} (A : Type ℓ) : Type ℓ where
  parsed : A → Parsed A
  failed : String → Parsed A

infixl 5 ◌>>=◌
abbrev pub ◌>>=◌ {ℓ κ} : {A : Type ℓ} {B : Type κ} → Parsed A → (A → Parsed B) → Parsed B
parsed a >>= k = k a
failed e >>= k = failed e
