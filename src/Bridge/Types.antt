-- ===== src/Bridge/Types.antt =====
-- `JsValueBridge` (src/bridge/types.rs). Lists and options of values are types of the same block.
use deno_director.Prelude.{ℕ, Bool, Option, List}
use deno_director.Prelude.Text.{Text}
use deno_director.Bridge.Float64.{F64}
use deno_director.Bridge.Json.{Json}

mutual
  pub data JsValueBridge (N : Type 0) : Type 0 where
    undefined : JsValueBridge N
    null : JsValueBridge N
    bool : Bool → JsValueBridge N
    number : F64 → JsValueBridge N
    string : Text → JsValueBridge N
    big_int : Text → JsValueBridge N
    date_ms : F64 → JsValueBridge N
    reg_exp : Text → Text → JsValueBridge N
    -- kind, bytes, byte_offset and length
    buffer_view : Text → List ℕ → ℕ → ℕ → JsValueBridge N
    map_of : Entries N → JsValueBridge N
    set_of : Values N → JsValueBridge N
    url : Text → JsValueBridge N
    url_search_params : Text → JsValueBridge N
    json : Json N → JsValueBridge N
    v8_serialized : List ℕ → JsValueBridge N
    -- name, message, stack, code and cause
    error : Text → Text → Option Text → Option Text → Cause N → JsValueBridge N
    -- id and is_async
    host_function : ℕ → Bool → JsValueBridge N

  pub data Entries (N : Type 0) : Type 0 where
    no_entries : Entries N
    entry : JsValueBridge N → JsValueBridge N → Entries N → Entries N

  pub data Values (N : Type 0) : Type 0 where
    no_values : Values N
    value : JsValueBridge N → Values N → Values N

  pub data Cause (N : Type 0) : Type 0 where
    no_cause : Cause N
    cause : JsValueBridge N → Cause N
