-- ===== src/Arglayout/Syntax.antt =====
-- tools/arglayout/main.go: what the tool reads of a parsed file. A node has its span, and the fields
-- that the switch of `violations` and `block` look at; `other` is a node of any other type with its
-- subnodes. A position is a number, zero where it is not valid.
use kinetix_search_service.Common.{ℕ, ◌-◌, List, [], ◌∷◌, ◌++◌, Text}
use kinetix_search_service.Common.{take, drop}

pub record Span : Type 0 where
  pub start : ℕ
  pub stop : ℕ

mutual
  pub data Node : Type 0 where
    -- `Fun`, `Lparen`, `Args`, `Ellipsis`, `Rparen`
    call_expr : Span → Node → ℕ → Nodes → ℕ → ℕ → Node
    -- `Type`, of no or one node, `Lbrace`, `Elts`, `Rbrace`
    composite_lit : Span → Nodes → ℕ → Nodes → ℕ → Node
    -- `TypeParams`, `Params`, `Results`
    func_type : Span → FieldList → FieldList → FieldList → Node
    -- `Type` and `Body`
    func_lit : Span → Nodes → Node
    -- `Key` and `Value`
    key_value : Span → Node → Node → Node
    unary : Span → Node → Node
    other : Span → Nodes → Node

  pub data Nodes : Type 0 where
    nil : Nodes
    cons : Node → Nodes → Nodes

  pub data FieldList : Type 0 where
    absent : FieldList
    -- `Opening`, `List`, `Closing`
    fields : ℕ → Nodes → ℕ → FieldList

-- `Pos` and `End` of a node.
abbrev pub span : Node → Span
span (call_expr s f l a e r) = s
span (composite_lit s t l e r) = s
span (func_type s t p r) = s
span (func_lit s b) = s
span (key_value s k v) = s
span (unary s x) = s
span (other s ns) = s

-- `ast.Inspect` of a function that always goes on: every node, before its subnodes.
unfoldable mutual
  pub inspect : Node → List Node
  inspect (call_expr s f l a e r) = call_expr s f l a e r ∷ (inspect f ++ inspect_all a)
  inspect (composite_lit s t l e r) = composite_lit s t l e r ∷ (inspect_all t ++ inspect_all e)
  inspect (func_type s t p r) =
      func_type s t p r ∷ (inspect_fields t ++ (inspect_fields p ++ inspect_fields r))
  inspect (func_lit s b) = func_lit s b ∷ inspect_all b
  inspect (key_value s k v) = key_value s k v ∷ (inspect k ++ inspect v)
  inspect (unary s x) = unary s x ∷ inspect x
  inspect (other s ns) = other s ns ∷ inspect_all ns

  pub inspect_all : Nodes → List Node
  inspect_all nil = []
  inspect_all (cons n ns) = inspect n ++ inspect_all ns

  pub inspect_fields : FieldList → List Node
  inspect_fields absent = []
  inspect_fields (fields o ns c) = inspect_all ns

-- `fset.Position`: the line and the offset of a position.
pub record FileSet : Type 0 where
  pub line : ℕ → ℕ
  pub offset : ℕ → ℕ

-- `source[from:to]`, of offsets in the source.
abbrev pub slice : Text → ℕ → ℕ → Text
slice source from to = take (to - from) (drop from source)

pub record Item : Type 0 where
  pub start : ℕ
  pub stop : ℕ
  pub text : Text

-- `group`, less `closer`, which nothing reads.
pub record Group : Type 0 where
  pub opening : ℕ
  pub closing : ℕ
  pub items : List Item
