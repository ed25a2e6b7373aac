-- ===== src/Tests/Arglayout.antt =====
-- Examples for tools/arglayout: the file `f(a,\nb)`, before and after its repair.
use kinetix_search_service.Common.{
  ℕ, ◌+◌, ◌-◌, ltb, false, ◌≡◌, refl, sym, ap, ◌↔◌, List, [], ◌∷◌, ◌++◌, map, Text, lit, text_eq,
  ok, Memᴰ, if◌then◌else◌, take, drop, trim_space, is_space, trim_left, trim_right,
}
use kinetix_search_service.Search.Call.{settled}
use kinetix_search_service.Arglayout.Syntax.{
  Span, Node, call_expr, other, nil, cons, FileSet, Group, inspect,
}
use kinetix_search_service.Arglayout.Check.{violations_in}
use kinetix_search_service.Arglayout.Check.Laws.{IsReported, violations_in_iff}
use kinetix_search_service.Arglayout.Rewrite.{rewrite, outermost, formatting}
use kinetix_search_service.Arglayout.Rewrite.Outermost.{IsOutermost, outermost-IsOutermost}
use kinetix_search_service.Arglayout.Rewrite.Splice.{Segment, assembled, Relaid, rewrite-Relaid}
use kinetix_search_service.Arglayout.Files.{Tools, directory, file, end, entry, main, process}
use kinetix_search_service.Arglayout.Files.Reports.{Means, main-Means}
use kinetix_search_service.Arglayout.Files.Repair.{IsFaithful, Repaired, process_fix-Repaired}

abbrev crowded_text : Text
crowded_text = lit "f(a,\nb)"

-- The second line begins at position 6.
abbrev fset : FileSet
fset = record { line = λ p. if ltb p 6 then 1 else 2; offset = λ p. p - 1 }

abbrev at : ℕ → Span
at p = record { start = p; stop = p + 1 }

abbrev leaf : ℕ → Node
leaf p = other (at p) nil

abbrev tree : Node
tree = call_expr (record { start = 1; stop = 8 }) (leaf 1) 2 (cons (leaf 3) (cons (leaf 6) nil)) 0 7

abbrev group : Group
group = record {
  opening = 2;
  closing = 7;
  items =
      record { start = 3; stop = 4; text = lit "a" }
      ∷ record { start = 6; stop = 7; text = lit "b" }
      ∷ [];
}

found : violations_in fset crowded_text tree ≡ group ∷ []
unfolding violations_in take drop inspect
found = refl

violations_in_iff_example :
    Memᴰ group (violations_in fset crowded_text tree) ↔ IsReported fset crowded_text tree group
violations_in_iff_example = violations_in_iff fset crowded_text tree group

abbrev inner : Group
inner = record { opening = 4; closing = 6; items = [] }

abbrev next_group : Group
next_group = record { opening = 9; closing = 12; items = [] }

outermost-IsOutermost_example :
    IsOutermost (next_group ∷ inner ∷ group ∷ []) (outermost (next_group ∷ inner ∷ group ∷ []))
outermost-IsOutermost_example = outermost-IsOutermost (next_group ∷ inner ∷ group ∷ [])

inner_dropped : outermost (next_group ∷ inner ∷ group ∷ []) ≡ group ∷ next_group ∷ []
unfolding outermost
inner_dropped = refl

abbrev segments : List Segment
segments = record { before = lit "f("; inside = lit "a,\nb"; group = group } ∷ []

rewrite-Relaid_example :
    (text : Text) × Relaid (lit ")") segments text
    × (rewrite
          (λ t. ok t)
          (assembled segments (lit ")"))
          fset
          (map (λ (s : Segment). s.group) segments)
        ≡ settled formatting (ok text))
rewrite-Relaid_example = rewrite-Relaid (λ t. ok t) fset segments (lit ")") (refl, refl, tt)

repaired_text : rewrite (λ t. ok t) (lit "f(a,\nb)") fset (group ∷ []) ≡ ok (lit "f(\na,\nb,\n)")
unfolding rewrite trim_space is_space trim_left trim_right take drop
repaired_text = refl

-- One file, whose text is the state; only the crowded text has a call.
abbrev tools : Tools Text
tools = record {
  open_root = λ root w. ok (directory (lit ".") (entry (file (lit "a.go")) end));
  read_file = λ root path w. ok w;
  write_file = λ root path text w. (ok tt, text);
  parse_file = λ name text. ok (fset, if text_eq text crowded_text then tree else leaf 1);
  format = λ text. ok text;
  join = λ root path. root ++ path;
}

main-Means_example :
    ((main tools false (lit "." ∷ []) crowded_text).1 ≡ crowded_text)
    × Means tools crowded_text (lit "." ∷ []) (main tools false (lit "." ∷ []) crowded_text).0
main-Means_example = main-Means tools crowded_text (lit "." ∷ [])

complains : (main tools false (lit "." ∷ []) crowded_text).0 ≡ 1
unfolding main violations_in take drop inspect
complains = refl

tools-IsFaithful : IsFaithful tools
tools-IsFaithful = record {
  reads_written = λ root path source w w' h. ap (λ (s : Text). ok s) (sym (ap (λ p. p.1) h));
}

process_fix-Repaired_example :
    Repaired tools (lit ".") (lit "a.go") crowded_text (lit "f(\na,\nb,\n)") false
unfolding process rewrite outermost violations_in take drop trim_space is_space trim_left trim_right
    inspect
process_fix-Repaired_example =
    process_fix-Repaired tools (lit ".") (lit "a.go") tools-IsFaithful crowded_text
      {w' = lit "f(\na,\nb,\n)"} {bad = false} refl
