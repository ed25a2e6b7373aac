-- ===== src/Arglayout/Check.antt =====
-- tools/arglayout/main.go: `violations`, `block` and `sameLineHead`.
pub mod Layout
pub mod Laws
use kinetix_search_service.Common.{
  ℕ, ◌==◌, leb, ◌||◌, ◌&&◌, not, Bool, true, false, List, [], ◌∷◌, ◌++◌, Text, lit, nonempty, all,
  flat_map, if◌then◌else◌,
}
use kinetix_search_service.Arglayout.Syntax.{
  Span, Node, Nodes, FieldList, call_expr, composite_lit, func_type, func_lit, key_value, unary,
  other, nil, cons, absent, fields, span, inspect, FileSet, slice, Item, Group,
}

unfoldable pub block : Node → Bool
block (func_lit s b) = true
block (composite_lit s t l e r) = true
block (key_value s k v) = block v
block (unary s x) = block x
block (call_expr s f l a e r) = false
block (func_type s t p r) = false
block (other s ns) = false

-- `len(list) > 0 && block(list[len(list)-1])`
unfoldable pub last_block : Nodes → Bool
unfolding block
last_block nil = false
last_block (cons n nil) = block n
last_block (cons n (cons m ns)) = last_block (cons m ns)

-- A group beside the second argument of `check`.
pub record Candidate : Type 0 where
  pub group : Group
  pub trailing : Bool

module _ (fset : FileSet) (source : Text) where
  abbrev pub text : ℕ → ℕ → Text
  text start stop = slice source (fset.offset start) (fset.offset stop)

  abbrev pub item_of : Node → Item
  item_of n = record {
    start = (span n).start;
    stop = (span n).stop;
    text = text (span n).start (span n).stop;
  }

  unfoldable pub items_of : Nodes → List Item
  items_of nil = []
  items_of (cons n ns) = item_of n ∷ items_of ns

  -- The last argument keeps the dots after it.
  abbrev pub last_item : ℕ → Node → Item
  last_item ellipsis n = record (item_of n) {
    text =
        if not (ellipsis == 0)
        then text (span n).start (span n).stop ++ lit "..."
        else text (span n).start (span n).stop;
  }

  unfoldable pub arguments : ℕ → Nodes → List Item
  arguments ellipsis nil = []
  arguments ellipsis (cons n nil) = last_item ellipsis n ∷ []
  arguments ellipsis (cons n (cons m ns)) = item_of n ∷ arguments ellipsis (cons m ns)

  unfoldable pub signature : FieldList → List Candidate
  unfolding items_of
  signature absent = []
  signature (fields opening ns closing) =
      if opening == 0 || closing == 0
      then []
      else record {
        group = record { opening = opening; closing = closing; items = items_of ns };
        trailing = false;
      }
        ∷ []

  -- The switch over the type of the node.
  unfoldable pub candidates : Node → List Candidate
  unfolding items_of arguments signature last_block
  candidates (call_expr s f lparen args ellipsis rparen) =
      record {
        group = record { opening = lparen; closing = rparen; items = arguments ellipsis args };
        trailing = last_block args;
      }
      ∷ []
  candidates (composite_lit s t lbrace elts rbrace) =
      record {
        group = record { opening = lbrace; closing = rbrace; items = items_of elts };
        trailing = last_block elts;
      }
      ∷ []
  candidates (func_type s t params results) = signature params ++ signature results
  candidates (func_lit s b) = []
  candidates (key_value s k v) = []
  candidates (unary s x) = []
  candidates (other s ns) = []

module _ (line : ℕ → ℕ) where
  -- The line of the end of the last item.
  abbrev pub last_line : ℕ → List Item → ℕ
  last_line otherwise [] = otherwise
  last_line otherwise (it ∷ its) = last_line (line it.stop) its

  unfoldable pub same_line_head : Group → Bool
  same_line_head g =
      all (λ (it : Item). line it.start == line g.opening) g.items
      && line g.closing == last_line 0 g.items

  -- The loop over the items, and the test past it.
  unfoldable pub crowded : ℕ → List Item → ℕ → Bool
  crowded previous [] closing = leb (line closing) previous
  crowded previous (it ∷ its) closing =
      leb (line it.start) previous || crowded (line it.stop) its closing

  -- What `check` adds to the groups found.
  unfoldable pub check : Candidate → List Group
  unfolding same_line_head crowded
  check c =
      if not (nonempty c.group.items) || line c.group.opening == line c.group.closing
      then []
      else if c.trailing && same_line_head c.group
      then []
      else if crowded (line c.group.opening) c.group.items c.group.closing
      then c.group ∷ []
      else []

-- `violations` past the parser.
unfoldable pub violations_in : FileSet → Text → Node → List Group
unfolding check candidates
violations_in fset source file =
    flat_map (λ n. flat_map (check fset.line) (candidates fset source n)) (inspect file)
