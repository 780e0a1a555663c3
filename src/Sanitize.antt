-- ===== src/Sanitize.antt =====
-- src/middleware/sanitize.middleware.ts.
pub mod Laws
mod Tests
use file_processing_system.Prelude.{
  Bool, true, false, ◌==◌, List, [], ◌∷◌, Option, none, some, if◌then◌else◌,
}
use file_processing_system.Prelude.Text.{Text, text_eq}

-- A value of a parsed request. An array is an object whose keys are its indices; a value that is
-- no object, `null` included, is a scalar.
mutual
  pub data Json : Type 0 where
    scalar : Text → Json
    object : Fields → Json

  pub data Fields : Type 0 where
    end : Fields
    field : Text → Json → Fields → Fields

-- `key.startsWith('$')`
unfoldable pub is_operator : Text → Bool
is_operator [] = false
is_operator (c ∷ s) = c == 36

-- The loop over `Object.keys(obj)`, which deletes the operators and goes into every other object.
unfoldable mutual
  pub sanitize_object : Fields → Fields
  sanitize_object end = end
  sanitize_object (field key value rest) =
      let clean = sanitize_object rest in
      let inner = sanitize_value value in if is_operator key then clean else field key inner clean

  pub sanitize_value : Json → Json
  sanitize_value (scalar s) = scalar s
  sanitize_value (object fields) = object (sanitize_object fields)

-- `req.body`, `req.params` and `req.query`
pub record Request : Type 0 where
  pub body : Option Json
  pub params : Option Json
  pub query : Option Json

sanitize_part : Option Json → Option Json
sanitize_part none = none
sanitize_part (some value) = some (sanitize_value value)

-- `req.query` of Express 5 is a getter that parses the address anew at each use: the object that is
-- cleaned is dropped, and a handler reads the query as it came.
unfoldable pub sanitize_middleware : Request → Request
unfolding sanitize_part
sanitize_middleware req = record {
  body = sanitize_part req.body;
  params = sanitize_part req.params;
  query = req.query;
}

-- `obj[key]`
unfoldable pub property : Text → Fields → Option Json
property key end = none
property key (field name value rest) =
    let other = property key rest in if text_eq key name then some value else other
