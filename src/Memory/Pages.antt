-- ===== src/Memory/Pages.antt =====
-- The page allocator of zenos-kernel/src/memory/mod.rs: `PageAllocator`, a list of regions with a bitmap.
mod Bitmap
mod Words
pub mod Spec
mod Takes
pub mod Laws
pub mod Freeing
mod Invariant
pub mod Start
use zenos.Common.{
  ℕ, zero, suc, ◌+◌, ◌-◌, ◌*◌, ◌/◌, ◌%◌, Bool, true, false, ◌&&◌, ◌||◌, not, List, [], ◌∷◌, ◌++◌,
  Option, none, some, if◌then◌else◌, ltb, leb, ◌==◌, length, get_or, set, repeat, u64_size,
}

pub data PageSize : Type 0 where
  size_4kib : PageSize
  size_2mib : PageSize

pub data MapErr : Type 0 where
  out_of_memory : MapErr
  not_mapped : MapErr
  uninitialized : MapErr
  invalid_alignment : MapErr

pub data Freed : Type 0 where
  freed : Freed
  failed : MapErr → Freed

abbrev pub page_4k : ℕ
page_4k = 4096

abbrev pub page_2m : ℕ
page_2m = 2 * 1024 * 1024

-- A `u64` of the bitmap is the list of its 64 bits, the lowest first; 1 is free.
abbrev pub Word : Type 0
Word = List Bool

abbrev pub word_max : Word
word_max = repeat 64 true

abbrev pub word_zero : Word
word_zero = repeat 64 false

-- `(1u64 << bits) - 1`.
abbrev pub low_mask : ℕ → Word
low_mask bits = repeat bits true ++ repeat (64 - bits) false

pub record BitmapNode : Type 0 where
  pub base_phys : ℕ
  pub region_size : ℕ
  pub bitmap : List Word

-- The nodes from `head` on.
abbrev pub PageAllocator : Type 0
PageAllocator = List BitmapNode

abbrev pub pages_in : BitmapNode → ℕ
pages_in node = node.region_size / page_4k

abbrev pub bit_at : List Word → ℕ → Bool
bit_at words page = get_or (get_or words (page / 64) []) (page % 64) false

unfoldable pub put_bit : Bool → List Word → ℕ → List Word
put_bit b words page = set words (page / 64) (set (get_or words (page / 64) []) (page % 64) b)

-- `initialize`: the words of a region, all free, with only the low bits of a partial last word.
unfoldable pub new_bitmap : ℕ → List Word
new_bitmap pages =
    let bitmap_words = (pages + 63) / 64 in
    let words = repeat bitmap_words word_max in
    if pages % 64 == 0 then words else set words (bitmap_words - 1) (low_mask (pages % 64))

abbrev pub aligned_start : ℕ → ℕ
aligned_start start_phys = (start_phys + 4095) / page_4k * page_4k

-- With the wrap-around of `end_phys - aligned_start`.
abbrev pub aligned_size : ℕ → ℕ → ℕ
aligned_size start_phys size =
    (start_phys + size + (u64_size - aligned_start start_phys)) % u64_size / page_4k * page_4k

abbrev pub new_node : ℕ → ℕ → BitmapNode
new_node start_phys size = record {
  base_phys = aligned_start start_phys;
  region_size = aligned_size start_phys size;
  bitmap = new_bitmap (aligned_size start_phys size / page_4k);
}

-- The loop over the regions; each node goes before the earlier ones.
unfoldable pub initialize_loop : PageAllocator → List (ℕ × ℕ) → PageAllocator
initialize_loop head [] = head
initialize_loop head ((start_phys, size) ∷ regions) =
    initialize_loop
      (if ltb (aligned_size start_phys size) page_4k then head else new_node start_phys size ∷ head)
      regions

abbrev pub initialize : List (ℕ × ℕ) → PageAllocator
initialize = initialize_loop []

-- `phys >= node.base_phys && phys < node.base_phys + node.region_size`.
unfoldable pub inside : BitmapNode → ℕ → Bool
inside node phys = leb node.base_phys phys && ltb phys (node.base_phys + node.region_size)

-- The walk from node to node: `op` at the first one whose region holds `phys`.
unfoldable pub visit {ℓ} :
    {A : Type ℓ} → (BitmapNode → A × BitmapNode) → A → ℕ → PageAllocator → A × PageAllocator
visit op missing phys [] = (missing, [])
visit op missing phys (node ∷ nodes) =
    let rest = visit op missing phys nodes in
    if inside node phys then ((op node).0, (op node).1 ∷ nodes) else (rest.0, node ∷ rest.1)

abbrev pub page_of : BitmapNode → ℕ → ℕ
page_of node phys = (phys - node.base_phys) / page_4k

abbrev pub with_bitmap : BitmapNode → List Word → BitmapNode
with_bitmap node words = record node { bitmap = words }

-- Under the lock the `compare_exchange` finds the value that was read.
unfoldable pub claim_4k : ℕ → BitmapNode → Option ℕ × BitmapNode
claim_4k phys node =
    let page_num = page_of node phys in
    if ltb (page_num / 64) (length node.bitmap) && bit_at node.bitmap page_num
    then (some phys, with_bitmap node (put_bit false node.bitmap page_num))
    else (none, node)

abbrev pub all_set : Word → Bool
all_set [] = true
all_set (b ∷ bs) = b && all_set bs

-- Whether `count` words from `word_idx` on are `u64::MAX`.
unfoldable pub words_full : ℕ → ℕ → List Word → Bool
words_full zero word_idx words = true
words_full (suc count) word_idx words =
    all_set (get_or words word_idx []) && words_full count (suc word_idx) words

unfoldable pub clear_words : ℕ → ℕ → List Word → List Word
clear_words zero word_idx words = words
clear_words (suc count) word_idx words =
    clear_words count (suc word_idx) (set words word_idx word_zero)

-- 512 pages are 8 words.
unfoldable pub claim_2m : ℕ → BitmapNode → Option ℕ × BitmapNode
claim_2m phys node =
    let page_num = page_of node phys in
    if page_num % 512 == 0
    then (if leb (page_num / 64 + 8) (length node.bitmap)
        then (if words_full 8 (page_num / 64) node.bitmap
            then (some phys, with_bitmap node (clear_words 8 (page_num / 64) node.bitmap))
            else (none, node))
        else (none, node))
    else (none, node)

abbrev pub any_set : Word → Bool
any_set [] = false
any_set (true ∷ bs) = true
any_set (false ∷ bs) = any_set bs

-- The loop on `bit_pos` in a word whose first bit is page `page`, below the `limit` of the region.
unfoldable pub find_bit : ℕ → ℕ → Word → Option ℕ
find_bit limit page [] = none
find_bit limit page (b ∷ bs) =
    if ltb page limit then (if b then some page else find_bit limit (suc page) bs) else none

abbrev pub or_else {ℓ} : {A : Type ℓ} → Option A → Option A → Option A
or_else (some a) rest = some a
or_else none rest = rest

unfoldable pub find_page : ℕ → ℕ → List Word → Option ℕ
find_page limit page [] = none
find_page limit page (word ∷ words) =
    let rest = find_page limit (page + 64) words in
    if any_set word then or_else (find_bit limit page word) rest else rest

unfoldable pub hunt_4k : PageAllocator → Option ℕ × PageAllocator
hunt_4k [] = (none, [])
hunt_4k (node ∷ nodes) =
    let rest = hunt_4k nodes in
    elim (find_page (pages_in node) 0 node.bitmap) [
      | some page_num ↦ (
        some (node.base_phys + page_num * page_4k),
        with_bitmap node (put_bit false node.bitmap page_num) ∷ nodes,
      )
      | none ↦ (rest.0, node ∷ rest.1)
    ]

-- The loop on `bit_pos` with a step of 512, where `64 - step` wraps around to a large number. Either
-- it breaks in the first turn, or the mask `((1u64 << 512) - 1) << local_bit`, whose shift wraps to a
-- shift by 0, is 0, and the exchange changes nothing.
unfoldable pub find_2m : ℕ → ℕ → Option ℕ
find_2m limit word_idx =
    let aligned_bit = (word_idx * 64 + 511) / 512 * 512 in
    if ltb (word_idx * 64) limit
    then (if leb limit aligned_bit
        then none
        else (if not (aligned_bit / 64 == word_idx) || ltb 64 (aligned_bit % 64 + 512)
            then none
            else some aligned_bit))
    else none

unfoldable pub find_2m_in : ℕ → ℕ → List Word → Option ℕ
find_2m_in limit word_idx [] = none
find_2m_in limit word_idx (word ∷ words) =
    let rest = find_2m_in limit (suc word_idx) words in
    if any_set word then or_else (find_2m limit word_idx) rest else rest

unfoldable pub hunt_2m : PageAllocator → Option ℕ
hunt_2m [] = none
hunt_2m (node ∷ nodes) =
    let rest = hunt_2m nodes in
    elim (find_2m_in (pages_in node) 0 node.bitmap) [
      | some page_num ↦ some (node.base_phys + page_num * page_4k)
      | none ↦ rest
    ]

unfoldable pub alloc : PageSize → Option ℕ → PageAllocator → Option ℕ × PageAllocator
alloc size_4kib (some phys) a =
    if phys % page_4k == 0 then visit (claim_4k phys) none phys a else (none, a)
alloc size_2mib (some phys) a =
    if phys % page_2m == 0 then visit (claim_2m phys) none phys a else (none, a)
alloc size_4kib none a = hunt_4k a
alloc size_2mib none a = (hunt_2m a, a)

-- The mask for 2 MiB is `(1u64 << 512) - 1`, whose shift wraps to 0: the mask is 0.
unfoldable pub free_pages_at : PageSize → ℕ → BitmapNode → Freed × BitmapNode
free_pages_at size_4kib phys node =
    let page_num = page_of node phys in
    if ltb (page_num / 64) (length node.bitmap)
    then (freed, with_bitmap node (put_bit true node.bitmap page_num))
    else (failed not_mapped, node)
free_pages_at size_2mib phys node =
    let aligned_page = page_of node phys / 512 * 512 in
    if ltb (aligned_page / 64) (length node.bitmap)
    then (freed, node)
    else (failed not_mapped, node)

unfoldable pub dealloc : ℕ → PageSize → PageAllocator → Freed × PageAllocator
dealloc phys size a = visit (free_pages_at size phys) (failed not_mapped) phys a
