-- ===== src/Tests/Samples.antt =====
-- Concrete documents, pages and services for the examples.
use kinetix_search_service.Common.{
  ℕ, ℤ, pos, ◌+◌, ◌*◌, ◌^◌, ◌==◌, true, false, refl, Option, none, some, [], ◌∷◌, Text, lit, ok,
  if◌then◌else◌, Floats,
}
use kinetix_search_service.Search.Time.{Time, floor_div}
use kinetix_search_service.Search.Document.{ProductDoc, Cursor, Changes, zero_progress, products}
use kinetix_search_service.Search.Service.{Counter, Clock}
use kinetix_search_service.Indexing.Memory.{
  Memory, memory_source, memory_index, memory_checkpoint, memory_lock,
}
use kinetix_search_service.Indexing.Reindexer.{Reindexer}

abbrev pub ended : {A B : Type 0} → B → Option (A × B) → B
ended d none = d
ended d (some (a, b)) = b

-- Integers in place of floating-point numbers.
abbrev pub floats : Floats ℤ
floats = record {
  of_int64 = λ n. n;
  to_int64 = λ x. x;
  seconds = λ d. floor_div d (10 ^ 9);
  zero_float = pos 0;
  to_int64-of_int64 = λ n h. refl;
}

abbrev pub noon : Time
noon = pos (62_135_596_800 * 10 ^ 9 + 7 * 10 ^ 6)

abbrev pub lamp : ProductDoc
lamp = record {
  id = record { v = lit "p-1" };
  merchant_id = record { v = lit "m-1" };
  title = lit "Lamp";
  description = lit "A lamp";
  categories = lit "light" ∷ lit "home" ∷ [];
  price_minor = pos 1999;
  currency = lit "IDR";
  updated_at = noon;
}

abbrev pub chair : ProductDoc
chair = record lamp { id = record { v = lit "p-2" }; title = lit "Chair"; categories = [] }

abbrev pub cursor_one : Cursor
cursor_one = record { transaction_id = 1; last_id = lit "p-1"; updated_through = noon }

abbrev pub cursor_two : Cursor
cursor_two = record { transaction_id = 2; last_id = lit "p-2"; updated_through = noon }

abbrev pub page_one : Changes ProductDoc
page_one = record {
  upserted = lamp ∷ [];
  removed = [];
  refused = [];
  next = cursor_one;
  has_more = true;
}

abbrev pub page_two : Changes ProductDoc
page_two = record {
  upserted = chair ∷ [];
  removed = lit "p-0" ∷ [];
  refused = [];
  next = cursor_two;
  has_more = false;
}

abbrev pub feed : Cursor → Changes ProductDoc
feed cur = if cur.transaction_id == 0 then page_one else page_two

abbrev pub key : ProductDoc → Text
key d = d.id.v

abbrev one_if : Option ProductDoc → ℕ
one_if none = 0
one_if (some d) = 1

abbrev pub size : (Text → Option ProductDoc) → ℤ
size docs = pos (one_if (docs (lit "p-1")) + one_if (docs (lit "p-2")))

abbrev pub memory : Memory ProductDoc
memory = record {
  docs = λ g id. none;
  alias = lit "products_v1";
  progress = zero_progress;
  time = noon;
  held = false;
}

abbrev pub counter : {W : Type 0} → Counter W
counter = record { count = λ w. (ok (pos 2), w) }

abbrev pub clock : {W : Type 0} → Clock W
clock = record { now = λ w. (noon, w) }

abbrev pub reindexer : Reindexer (Memory ProductDoc) ProductDoc
reindexer = record {
  collection = products;
  source = memory_source feed;
  counter = some counter;
  index = memory_index key size;
  checkpoint = memory_checkpoint;
  lock = memory_lock;
  clock = clock;
  page_size = pos 100;
}
