-- ===== src/MapReduce/Apps.antt =====
-- mrapps/wc.go: the application that counts words, over `unicode.IsLetter` (`is_letter`),
-- `strings.FieldsFunc` (`fields_func`) and `strconv.Itoa` (`itoa`).
pub mod Count
use Prim.Native.String.{String}
use Prim.Native.Char.{Char}
use mathlib.Core.List.{Permᴰ}
use my.Prelude.{
  ℕ, suc, ◌+◌, ◌≡◌, refl, ap, ◌∙◌, Bool, false, not, Option, some, List, [], ◌∷◌, arith, length,
  length-append, ◌==◌, if◌then◌else◌, Returns, Returns-map,
}
use my.Prelude.Maps.{◌=?◌, string_eq}
use my.MapReduce.Worker.{KeyValue}
use my.MapReduce.Worker.Groups.{values_of, outputs_of, lines_for}
use my.MapReduce.Sequential.{sequential}
use my.MapReduce.Sequential.Orders.{length-perm, values_of-append}
use my.MapReduce.Sequential.Equal.{AreInputs, all_pairs, Sorts, reduced_line, sequential_lem}

-- `for _, w := range words`
abbrev pub pairs : List String → List KeyValue
pairs [] = []
pairs (w ∷ words) = record { key = w; value = "1" } ∷ pairs words

module _ (is_letter : Char → Bool) (fields_func : String → (Char → Bool) → List String)
    (itoa : ℕ → String) where
  -- `ff`: what separates words.
  abbrev pub ff : Char → Bool
  ff r = not (is_letter r)

  -- The words of a text.
  abbrev pub fields : String → List String
  fields contents = fields_func contents ff

  unfoldable pub wc_map : String → String → List KeyValue
  wc_map filename contents = pairs (fields contents)

  unfoldable pub wc_reduce : String → List String → String
  wc_reduce key values = itoa (length values)

  pub wc_reduce-perm :
      (key : String) (vs ws : List String) → Permᴰ vs ws → wc_reduce key vs ≡ wc_reduce key ws
  unfolding wc_reduce
  wc_reduce-perm key vs ws p = ap itoa (length-perm p)

  -- How often a word stands in a text, and in all texts.
  abbrev pub occurrences : String → List String → ℕ
  occurrences key [] = 0
  occurrences key (w ∷ words) =
      let rest = occurrences key words in if w =? key then suc rest else rest

  abbrev pub total : String → List String → ℕ
  total key [] = 0
  total key (content ∷ rest) = occurrences key (fields content) + total key rest

  -- The texts of the input files.
  abbrev pub HaveTexts : (String → Option String) → List String → List String → Type 0
  HaveTexts read_file [] [] = Unit
  HaveTexts read_file (name ∷ names) (text ∷ texts) =
      (read_file name ≡ some text) × HaveTexts read_file names texts
  HaveTexts read_file _ _ = ⊥

  abbrev pub outs_of : List String → List String → List (ℕ × List KeyValue)
  outs_of (name ∷ names) (text ∷ texts) = (0, wc_map name text) ∷ outs_of names texts
  outs_of _ _ = []

  HaveTexts-AreInputs :
      (read_file : String → Option String) (names texts : List String)
      → HaveTexts read_file names texts
      → AreInputs read_file wc_map names (outs_of names texts)
  HaveTexts-AreInputs read_file [] [] h = tt
  HaveTexts-AreInputs read_file [] (text ∷ texts) h = absurd h
  HaveTexts-AreInputs read_file (name ∷ names) [] h = absurd h
  HaveTexts-AreInputs read_file (name ∷ names) (text ∷ texts) h =
      ((text, h.0, refl), HaveTexts-AreInputs read_file names texts h.1)

  pub length-values_of :
      (key : String) (words : List String)
      → length (values_of key (pairs words)) ≡ occurrences key words
  length-values_of key [] = refl
  length-values_of key (w ∷ words) = ground (arith, length-values_of key words)

  length-values_of_all :
      (read_file : String → Option String) (key : String) (names texts : List String)
      → HaveTexts read_file names texts
      → length (values_of key (all_pairs (outs_of names texts))) ≡ total key texts
  unfolding wc_map
  length-values_of_all read_file key [] [] h = refl
  length-values_of_all read_file key [] (text ∷ texts) h = absurd h
  length-values_of_all read_file key (name ∷ names) [] h = absurd h
  length-values_of_all read_file key (name ∷ names) (text ∷ texts) h =
      ap length (values_of-append key (pairs (fields text)) (all_pairs (outs_of names texts)))
      ∙ omega (
        arith,
        length-append (values_of key (pairs (fields text)))
            (values_of key (all_pairs (outs_of names texts))),
        length-values_of key (fields text),
        length-values_of_all read_file key names texts h.1,
      )

  -- A word's line: how often it occurs, if it does.
  abbrev pub count_line : ℕ → List String
  count_line n = if n == 0 then [] else itoa n ∷ []

  module _ (less : String → String → Bool)
      (connected : (a b : String) → less a b ≡ false → less b a ≡ false → a ≡ b) where
    pub lines_for-count :
        (key : String) (vs : List String)
        → lines_for less connected wc_reduce key vs ≡ count_line (length vs)
    unfolding wc_reduce
    lines_for-count key [] = refl
    lines_for-count key (v ∷ vs) = ground arith

    -- The sequential program with the word count application, on files that can be read, prints
    -- for each word that occurs in the files one line, with the number of its occurrences in all
    -- of them, and no line for any other word. The sort gives back the same pairs, sorted by key
    -- in an order where keys that neither comes before the other are equal.
    pub sequential-count :
        (read_file : String → Option String) (sort : List KeyValue → List KeyValue)
        (names texts : List String)
        → Sorts less sort (all_pairs (outs_of names texts))
        → HaveTexts read_file names texts
        → Returns
            (sequential read_file wc_map wc_reduce sort names)
            λ printed. (key : String) → outputs_of key printed ≡ count_line (total key texts)
    sequential-count read_file sort names texts s h =
        let outs = outs_of names texts in
        Returns-map
          {Q = λ printed. (key : String) → outputs_of key printed ≡ count_line (total key texts)} _
          (λ printed p key.
            reduced_line less connected wc_reduce wc_reduce-perm sort (all_pairs outs) printed key s
              p
            ∙ lines_for-count key (values_of key (all_pairs outs))
            ∙ ap count_line (length-values_of_all read_file key names texts h))
          (sequential_lem less connected wc_reduce wc_reduce-perm read_file wc_map sort names outs s
            (HaveTexts-AreInputs read_file names texts h))
