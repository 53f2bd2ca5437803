-- ===== src/Layers/Tokens.antt =====
-- CLayerManager::MakeList (ARP/LayerManager.cpp): how the list of layers is cut into tokens. A text is
-- the list of its bytes.
use arpwith_mfc.Base.{
  ℕ, Bool, ◌&&◌, ◌||◌, List, [], ◌∷◌, Result, ok, ◌>>=◌, ◌>>◌, require, if◌then◌else◌, ◌==◌, ltb,
  length,
}

-- a character that `%s` takes for white space
abbrev pub is_space : ℕ → Bool
is_space c = c == b' ' || (ltb 8 c && ltb c 14)

-- the leading characters that are no white space
unfoldable pub word : List ℕ → List ℕ
word [] = []
word (c ∷ cs) = if is_space c then [] else c ∷ word cs

-- `sscanf_s(pcList, "%s", …)`: white space is skipped, and a word is read.
unfoldable pub scan_word : List ℕ → List ℕ
unfolding word
scan_word [] = []
scan_word (c ∷ cs) = if is_space c then scan_word cs else c ∷ word cs

-- `strchr(pcList, ' ') + 1`, from place to place: the words that are read behind each blank.
unfoldable pub words_behind_blanks : List ℕ → List (List ℕ)
unfolding scan_word
words_behind_blanks [] = []
words_behind_blanks (c ∷ cs) =
    let rest = words_behind_blanks cs in if c == b' ' then scan_word cs ∷ rest else rest

-- the size of `token` in a NODE
abbrev pub token_size : ℕ
token_size = 50

-- CLayerManager::AllocNode and AddNode for each word. A word that was not read leaves `sBuff`
-- unwritten, and strcpy_s takes no text that does not fit the token.
unfoldable pub alloc_nodes : List (List ℕ) → Result (List (List ℕ))
alloc_nodes [] = ok []
alloc_nodes (w ∷ ws) = do
  require (ltb 0 (length w) && ltb (length w) token_size)
  rest ← alloc_nodes ws
  ok (w ∷ rest)

-- CLayerManager::MakeList
unfoldable pub make_list : List ℕ → Result (List (List ℕ))
unfolding words_behind_blanks alloc_nodes
make_list cs = alloc_nodes (scan_word cs ∷ words_behind_blanks cs)
