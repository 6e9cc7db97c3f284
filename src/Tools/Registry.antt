-- ===== src/Tools/Registry.antt =====
-- The allowlist of src/ai/tools/registry.ts. The map of the tools is the list of them in the order
-- of their registration, which is the order that `list` shows.
use capybara_ai.Prelude.{
  String, Bool, false, none, some, List, [], ◌∷◌, ◌++◌, map, ◌==◌, string_eq, any, ◌≡◌, refl, ap,
  arith, eq_iff, if◌then◌else◌, is_some, Bool-cases, inl, inr,
}
use capybara_ai.Prelude.Table.{first_where, first_where-append_new, first_where-append_apart}
use capybara_ai.Prelude.Effect.{Result, ok, throw}
use capybara_ai.Hash.{Json, str}
use capybara_ai.Tools.{ToolDefinition, get}
use Prim.Native.String.{◌++◌ as append}

module _ {S : Type 0} where
  abbrev pub is_registered : List (ToolDefinition S) → String → Bool
  is_registered tools name = any (λ (t : ToolDefinition S). t.name == name) tools

  unfoldable pub register :
      List (ToolDefinition S) → ToolDefinition S → Result String (List (ToolDefinition S))
  register tools def =
      if def.name == ""
      then throw "tool name must be a non-empty string"
      else if is_registered tools def.name
      then throw (append "tool already registered: " def.name)
      else ok (tools ++ def ∷ [])

  unfoldable pub has : List (ToolDefinition S) → Json → Bool
  has tools (str name) = is_registered tools name
  has tools _ = false

  unfoldable pub list : List (ToolDefinition S) → List String
  list tools = map (λ (t : ToolDefinition S). t.name) tools

  any-first_where :
      (q : ToolDefinition S → Bool) (tools : List (ToolDefinition S))
      → any q tools ≡ is_some (first_where q tools)
  any-first_where q [] = refl
  any-first_where q (t ∷ tools) = ground (arith, any-first_where q tools)

  -- `has` answers whether `get` finds a tool, for every name.
  pub has-get :
      (tools : List (ToolDefinition S)) (name : Json) → has tools name ≡ is_some (get tools name)
  unfolding has get
  has-get tools (str name) = any-first_where (λ (t : ToolDefinition S). t.name == name) tools
  has-get tools (Json.null) = refl
  has-get tools (Json.bool b) = refl
  has-get tools (Json.num n) = refl
  has-get tools (Json.arr xs) = refl
  has-get tools (Json.obj xs) = refl

  missing :
      (q : ToolDefinition S → Bool) (tools : List (ToolDefinition S))
      → any q tools ≡ false
      → first_where q tools ≡ none
  missing q [] h = refl
  missing q (t ∷ tools) h = ground (arith, missing q tools)

  list-append :
      (tools : List (ToolDefinition S)) (def : ToolDefinition S)
      → map (λ (t : ToolDefinition S). t.name) (tools ++ def ∷ [])
        ≡ map (λ (t : ToolDefinition S). t.name) tools ++ def.name ∷ []
  list-append [] def = refl
  list-append (t ∷ tools) def = ap (λ names. t.name ∷ names) (list-append tools def)

  -- What a registration that succeeds comes to.
  registered :
      (tools later : List (ToolDefinition S)) (def : ToolDefinition S)
      → register tools def ≡ ok later
      → (is_registered tools def.name ≡ false) × (later ≡ tools ++ def ∷ [])
  unfolding register
  registered tools later def e = elim (Bool-cases (def.name == "")) [
    | inl empty ↦ absurd (cc (rw empty at e))
    | inr named ↦ elim (Bool-cases (is_registered tools def.name)) [
      | inl taken ↦ absurd (cc (rw (named, taken) at e))
      | inr fresh ↦
          let added : ok (tools ++ def ∷ []) ≡ ok later = rw (named, fresh) at e in (fresh, cc)
    ]
  ]

  get-append :
      (tools : List (ToolDefinition S)) (def : ToolDefinition S) (name : String)
      → is_registered tools def.name ≡ false
      → get (tools ++ def ∷ []) (str name)
        ≡ (if def.name == name then some def else get tools (str name))
  unfolding get
  get-append tools def name fresh = elim (Bool-cases (def.name == name)) [
    | inl hit ↦
        let same : def.name ≡ name = (eq_iff def.name name).0 hit in
        let absent = missing (λ (t : ToolDefinition S). t.name == name) tools (rw (← same) fresh) in
        rw hit
          (first_where-append_new (λ (t : ToolDefinition S). t.name == name) tools def absent hit)
    | inr miss ↦
        rw miss (first_where-append_apart (λ (t : ToolDefinition S). t.name == name) tools def miss)
  ]

  -- A registration that succeeds makes its tool the answer under its name, keeps the answer under
  -- every other name, and puts the name at the end of the list of names.
  pub get-register :
      (tools later : List (ToolDefinition S)) (def : ToolDefinition S) (name : String)
      → register tools def ≡ ok later
      → (get later (str name) ≡ (if def.name == name then some def else get tools (str name)))
        × (list later ≡ list tools ++ def.name ∷ [])
  unfolding list
  get-register tools later def name e =
      let (fresh, same) = registered tools later def e in
      rw same (get-append tools def name fresh, list-append tools def)
