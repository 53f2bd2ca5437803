-- ===== src/Layers/Links.antt =====
-- A text of ConnectLayers is cut into tokens, each as often as there are blanks before it, and ConnectLayers
-- joins the layers as the notation of these tokens says.
use arpwith_mfc.Base.{
  ℕ, zero, suc, sym, subst, ◌<◌, ◌≡◌, refl, ap, ap₂, ◌∙◌, false, List, [], ◌∷◌, ◌++◌, some, ok,
  arith, length, ◌==◌, All,
}
use arpwith_mfc.Layers.{Objects, max_layer_number}
use arpwith_mfc.Layers.Tokens.{
  is_space, word, scan_word, words_behind_blanks, alloc_nodes, make_list, token_size,
}
use arpwith_mfc.Layers.Manager.{Manager, get_layer, connect_layers}
use arpwith_mfc.Layers.Tree.{
  Forest, print, depth, attach, open_token, close_token, link_layer-rooted,
}

-- A token that fits its node and has no white space in it.
abbrev pub IsToken : List ℕ → Type 0
IsToken t = (0 < length t) × (length t < token_size) × All (λ c. is_space c ≡ false) t

-- Some blanks, and then a text.
abbrev pub blanks : ℕ → List ℕ → List ℕ
blanks zero c = c
blanks (suc k) c = b' ' ∷ blanks k c

-- Some more times the same token, and then others.
abbrev pub again : ℕ → List ℕ → List (List ℕ) → List (List ℕ)
again zero u ts = ts
again (suc k) u ts = u ∷ again k u ts

-- Tokens with a blank between each two, and as many more before each as its number says.
abbrev pub text_of : List ℕ → List (ℕ × List ℕ) → List ℕ
text_of t [] = t
text_of t ((k, u) ∷ us) = t ++ b' ' ∷ blanks k (text_of u us)

-- The tokens that are read: each stands as often as there are blanks before it.
abbrev pub read_of : List (ℕ × List ℕ) → List (List ℕ)
read_of [] = []
read_of ((k, u) ∷ us) = u ∷ again k u (read_of us)

word-append : (t rest : List ℕ) → All (λ c. is_space c ≡ false) t → word (t ++ b' ' ∷ rest) ≡ t
unfolding word
word-append [] rest a = refl
word-append (c ∷ t) rest a = rw a.0 (ap (◌∷◌ c) (word-append t rest a.1))

word-All : (t : List ℕ) → All (λ c. is_space c ≡ false) t → word t ≡ t
unfolding word
word-All [] a = refl
word-All (c ∷ t) a = rw a.0 (ap (◌∷◌ c) (word-All t a.1))

scan_word-text_of : (t : List ℕ) (us : List (ℕ × List ℕ)) → IsToken t → scan_word (text_of t us) ≡ t
unfolding scan_word
scan_word-text_of [] us (h, _, _) = absurd (omega arith)
scan_word-text_of (c ∷ t) [] (_, _, a) = rw a.0 (ap (◌∷◌ c) (word-All t a.1))
scan_word-text_of (c ∷ t) ((k, u) ∷ us) (_, _, a) =
    rw a.0 (ap (◌∷◌ c) (word-append t (blanks k (text_of u us)) a.1))

scan_word-blanks : (k : ℕ) (c : List ℕ) → scan_word (blanks k c) ≡ scan_word c
unfolding scan_word
scan_word-blanks zero c = refl
scan_word-blanks (suc k) c = scan_word-blanks k c

not_blank : (c : ℕ) → is_space c ≡ false → (c == b' ') ≡ false
not_blank c h = ground arith

behind-append :
    (t rest : List ℕ)
    → All (λ c. is_space c ≡ false) t
    → words_behind_blanks (t ++ rest) ≡ words_behind_blanks rest
unfolding words_behind_blanks
behind-append [] rest a = refl
behind-append (c ∷ t) rest a = rw (not_blank c a.0) (behind-append t rest a.1)

behind_none : (t : List ℕ) → All (λ c. is_space c ≡ false) t → words_behind_blanks t ≡ []
unfolding words_behind_blanks
behind_none [] a = refl
behind_none (c ∷ t) a = rw (not_blank c a.0) (behind_none t a.1)

behind_blank :
    (cs : List ℕ) → words_behind_blanks (b' ' ∷ cs) ≡ scan_word cs ∷ words_behind_blanks cs
unfolding words_behind_blanks
behind_blank cs = refl

-- Each blank before a token reads that token.
behind-blanks :
    (k : ℕ) (c u : List ℕ)
    → scan_word c ≡ u
    → words_behind_blanks (blanks k c) ≡ again k u (words_behind_blanks c)
behind-blanks zero c u h = refl
behind-blanks (suc k) c u h =
    behind_blank (blanks k c) ∙ ap₂ ◌∷◌ (scan_word-blanks k c ∙ h) (behind-blanks k c u h)

All-again : (k : ℕ) (u : List ℕ) (ts : List (List ℕ)) → All IsToken (again k u ts) → All IsToken ts
All-again zero u ts a = a
All-again (suc k) u ts a = All-again k u ts a.1

behind-text_of :
    (t : List ℕ) (us : List (ℕ × List ℕ))
    → IsToken t
    → All IsToken (read_of us)
    → words_behind_blanks (text_of t us) ≡ read_of us
behind-text_of t [] h a = behind_none t h.2
behind-text_of t ((k, u) ∷ us) h a =
    let c = text_of u us in
    behind-append t (b' ' ∷ blanks k c) h.2
    ∙ behind_blank (blanks k c)
    ∙ ap₂ ◌∷◌ (scan_word-blanks k c ∙ scan_word-text_of u us a.0) (
        behind-blanks k c u (scan_word-text_of u us a.0)
        ∙ ap (again k u) (behind-text_of u us a.0 (All-again k u (read_of us) a.1)))

alloc_nodes-ok : (ts : List (List ℕ)) → All IsToken ts → alloc_nodes ts ≡ ok ts
unfolding alloc_nodes
alloc_nodes-ok [] a = refl
alloc_nodes-ok (t ∷ ts) (h, a) = ground (arith, alloc_nodes-ok ts a)

-- MakeList reads each token of a text as often as there are blanks before it, if no token is empty, has
-- white space in it or is longer than its node has room for.
pub make_list-text_of :
    (t : List ℕ) (us : List (ℕ × List ℕ))
    → IsToken t
    → All IsToken (read_of us)
    → make_list (text_of t us) ≡ ok (t ∷ read_of us)
unfolding make_list
make_list-text_of t us h a =
    rw (scan_word-text_of t us h, behind-text_of t us h a) (alloc_nodes-ok (t ∷ read_of us) (h, a))

All-append {ℓ} :
    {A : Type ℓ} (P : A → Type 0) (xs ys : List A) → All P xs → All P ys → All P (xs ++ ys)
All-append P [] ys hx hy = hy
All-append P (x ∷ xs) ys hx hy = (hx.0, All-append P xs ys hx.1 hy)

-- a manager on which ConnectLayers was not called yet
abbrev pub fresh : Objects → List ℕ → Manager
fresh os layers = record { objects = os; layers = layers; stack = []; tokens = [] }

-- ConnectLayers, called for the first time, on the text of a whole stack of layers joins them as the
-- notation says. Between two tokens stands a blank or more; a token is read as often as there are blanks
-- before it, and it is the tokens that are read which must be those of the notation. It needs that every
-- name is that of a registered layer, that each token fits its node, and that the brackets go less than
-- 255 deep.
pub connect_layers_lem :
    (f : Forest) (os os' : Objects) (layers root : List ℕ) (us : List (ℕ × List ℕ)) (r : ℕ)
    → get_layer os layers root ≡ ok (some r)
    → attach layers os r f ≡ ok os'
    → depth f < max_layer_number
    → IsToken root
    → All IsToken (print f)
    → read_of us ≡ open_token ∷ (print f ++ close_token ∷ [])
    → (m : Manager) × (connect_layers (fresh os layers) (text_of root us) ≡ ok m)
      × (m.objects ≡ os')
      × (m.layers ≡ layers)
      × (m.stack ≡ [])
unfolding connect_layers
connect_layers_lem f os os' layers root us r g e d hr hf reads =
    let ts = open_token ∷ (print f ++ close_token ∷ []) in
    let tokens : All IsToken ts = (
      (omega arith, omega arith, (refl, tt)),
      All-append IsToken (print f) (close_token ∷ []) hf
          ((omega arith, omega arith, (refl, tt)), tt),
    ) in
    let cut : make_list (text_of root us) ≡ ok (root ∷ ts) =
      make_list-text_of root us hr (subst (All IsToken) (sym reads) tokens)
      ∙ ap (λ t. ok (root ∷ t)) reads in
    let (l, linked) = link_layer-rooted f layers os os' root r g e d in
    (
      record { objects = os'; layers = layers; stack = []; tokens = root ∷ ts },
      rw cut (rw linked),
      refl,
      refl,
      refl,
    )
