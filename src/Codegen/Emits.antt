-- ===== src/Codegen/Emits.antt =====
-- Calls of the code generator that send whole lines, and count their size in `code_idx`.
pub mod Read
pub mod Stored
pub mod Changed
pub mod Flow
pub mod Directive
pub mod Named
pub mod Called
use Prim.Native.String.{String}
use pawn_x.Prelude.{
  ℕ, ◌+◌, ◌≡◌, refl, ap, sym, ◌∙◌, Bool, true, false, if◌then◌else◌, List, [], ◌∷◌, Option, none,
  some, arith,
}
use pawn_x.Prelude.Chars.{codes, itoh}
use pawn_x.Codegen.{Symbol, Usage, Gen, error, markusage, when}
use pawn_x.Codegen.Access.{check_suspend}
use pawn_x.Codegen.Sends.{Sends, Sends-none, Sends-trans}
use pawn_x.Codegen.Plain.{Plain, text, Sends-plain, Constant, constant_text, Sends-constant}
use pawn_x.Codegen.Name.{Name, name_string, Sends-name}

-- An instruction as it is sent: a line of one or of two words, a name with a number, and either of two
-- names with a number.
pub data Item : Type 0 where
  plain : Plain → Item
  constant : Constant → Item
  number : Name → ℕ → Item
  either : Bool → Name → Name → ℕ → Item

abbrev pub item_sent : Item → List (List ℕ) → List (List ℕ)
item_sent (plain i) sent = text i ∷ sent
item_sent (constant i) sent = constant_text i ∷ sent
item_sent (number i v) sent = (10 ∷ []) ∷ (itoh v ∷ (codes (name_string i) ∷ sent))
item_sent (either b i j v) sent =
    (10 ∷ []) ∷ (itoh v ∷ (codes (if b then name_string i else name_string j) ∷ sent))

abbrev pub item_size : Item → ℕ
item_size (plain i) = 4
item_size (constant i) = 8
item_size (number i v) = 8
item_size (either b i j v) = 8

unfoldable pub items_sent : List Item → List (List ℕ) → List (List ℕ)
items_sent [] sent = sent
items_sent (i ∷ is) sent = items_sent is (item_sent i sent)

unfoldable pub items_size : List Item → ℕ
items_size [] = 0
items_size (i ∷ is) = item_size i + items_size is

Sends-item : (i : Item) (sent : List (List ℕ)) → Sends sent (item_sent i sent) (item_size i)
Sends-item (plain i) sent = Sends-plain i sent
Sends-item (constant i) sent = Sends-constant i sent
Sends-item (number i v) sent = Sends-name i v sent
Sends-item (either true i j v) sent = Sends-name i v sent
Sends-item (either false i j v) sent = Sends-name j v sent

pub Sends-items :
    (is : List Item) (sent : List (List ℕ)) → Sends sent (items_sent is sent) (items_size is)
unfolding items_sent items_size
Sends-items [] sent = Sends-none sent
Sends-items (i ∷ is) sent =
    let s' = item_sent i sent in
    Sends-trans sent s' (items_sent is s') (item_size i) (items_size is) (Sends-item i sent)
      (Sends-items is s')

-- Whole lines are sent, and `code_idx` grows by what the assembler counts for them.
unfoldable pub Emits : Gen → Gen → Type 0
Emits g g' = (n : ℕ) × (Sends (g.sent) (g'.sent) n × (g'.code_idx ≡ g.code_idx + n))

pub Emits-none : (g : Gen) → Emits g g
unfolding Emits
Emits-none g = (0, (Sends-none (g.sent), omega arith))

pub Emits-trans : (a b c : Gen) → Emits a b → Emits b c → Emits a c
unfolding Emits
Emits-trans a b c (m, (s, e)) (n, (t, f)) =
    (m + n, (Sends-trans (a.sent) (b.sent) (c.sent) m n s t, omega (arith, e, f)))

-- Instructions are sent, and their size is counted.
pub Emits-items :
    (is : List Item) (g g' : Gen)
    → g'.sent ≡ items_sent is (g.sent)
    → g'.code_idx ≡ g.code_idx + items_size is
    → Emits g g'
unfolding Emits
Emits-items is g g' e c = (items_size is, (rw e (Sends-items is (g.sent)), c))

pub Emits-if : (b : Bool) (g x y : Gen) → Emits g x → Emits g y → Emits g (if b then x else y)
Emits-if true g x y e f = e
Emits-if false g x y e f = f

pub Emits-when : (b : Bool) (f : Gen → Gen) (g : Gen) → Emits g (f g) → Emits g (when b f g)
Emits-when b f g e = Emits-if b g (f g) g e (Emits-none g)

pub Emits-error : (b : Bool) (n : ℕ) (g : Gen) → Emits g (when b (error n) g)
unfolding Emits
Emits-error b n g = Emits-when b (error n) g (0, (Sends-none (g.sent), omega arith))

pub Emits-markusage :
    (symbol : Symbol) (usage : Usage) (g : Gen) → Emits g (markusage symbol usage g)
unfolding Emits
Emits-markusage symbol usage g = (0, (Sends-none (g.sent), omega arith))

-- The same for a call whose assertions may fail.
unfoldable pub EmitsIf : Gen → Option Gen → Type 0
EmitsIf g none = Unit
EmitsIf g (some g') = Emits g g'

pub EmitsIf-if :
    (b : Bool) (g : Gen) (x y : Option Gen)
    → EmitsIf g x
    → EmitsIf g y
    → EmitsIf g (if b then x else y)
EmitsIf-if true g x y e f = e
EmitsIf-if false g x y e f = f
