-- ===== src/Shared/RequestId.antt =====
-- shared/requestid/context.go, over the values of a context.Context.
use order_billing_system.Base.Tests.{
  ◌≡◌, refl, Bool, true, false, Option, none, some, if◌then◌else◌,
}
use order_billing_system.Base.Texts.{String, str_eq}
use order_billing_system.Shared.Effects.{ok, Outcome, returns, panics}

-- The key of the package has a type that no other package can name.
pub data Key : Type 0 where
  request_id_key : Key
  other_key : String → Key

-- A value of type `interface{}`: a string, or a value of another type, which is named.
pub data Held : Type 0 where
  held_text held_other : String → Held

pub data Context : Type 0 where
  background : Context
  with_value : Context → Key → Held → Context

abbrev same_key : Key → Key → Bool
same_key request_id_key request_id_key = true
same_key request_id_key (other_key b) = false
same_key (other_key a) request_id_key = false
same_key (other_key a) (other_key b) = str_eq a b

-- `ctx.Value(key)`: that of the innermost `WithValue`.
unfoldable pub find_value : Context → Key → Option Held
find_value background key = none
find_value (with_value ctx k held) key =
    let outer = find_value ctx key in if same_key k key then some held else outer

unfoldable pub set : Context → String → Context
set ctx id = with_value ctx request_id_key (held_text id)

-- The type assertion of `Get`.
abbrev pub text_of : Option Held → Outcome String
text_of none = returns (ok "")
text_of (some (held_text id)) = returns (ok id)
text_of (some (held_other kind)) = panics kind

unfoldable pub get : Context → Outcome String
get ctx = text_of (find_value ctx request_id_key)

-- A context that is `base`, or has got values under other keys since.
pub data Derived (base : Context) : Context → Type 0 where
  same : Derived base base
  inside :
      (ctx : Context) (name : String) (held : Held)
      → Derived base ctx
      → Derived base (with_value ctx (other_key name) held)

pub get-Derived : (base ctx : Context) → Derived base ctx → get ctx ≡ get base
unfolding get find_value
get-Derived base ctx same = refl
get-Derived base ctx (inside outer name held derived) = get-Derived base outer derived

pub get-set : (ctx : Context) (id : String) → get (set ctx id) ≡ returns (ok id)
unfolding get find_value set
get-set ctx id = refl
