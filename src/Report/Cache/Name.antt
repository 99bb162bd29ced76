-- ===== src/Report/Cache/Name.antt =====
-- `generateCacheFileName` and `parseCacheFileName`. A name is a list of code points.
use medik8s_system_tests.Base.{
  ℕ, ◌≡◌, refl, sym, ap, ◌∙◌, true, false, List, [], ◌∷◌, ◌++◌, Option, none, some, reverse,
  reverse-append, reverse-reverse, append_assoc, append-nil, All, if◌then◌else◌, ◌==◌, nat_eq,
  nat_beq_iff, subst,
}
use medik8s_system_tests.Go.Strings.{Text, codes, cut_prefix, is_space}
use medik8s_system_tests.Report.Cache.{CacheKey}

-- `strings.CutSuffix`, without its second result.
abbrev pub or_whole : Text → Option Text → Text
or_whole text none = text
or_whole text (some rest) = reverse rest

unfoldable pub cut_suffix : (text suffix : Text) → Text
unfolding cut_prefix
cut_suffix text suffix = or_whole text (cut_prefix (reverse text) (reverse suffix))

-- `strings.Fields`, with the field that is being read.
unfoldable pub fields_from : (word text : Text) → List Text
unfolding is_space
fields_from [] [] = []
fields_from (w ∷ word) [] = (w ∷ word) ∷ []
fields_from [] (c ∷ text) =
    let skipped = fields_from [] text in
    let started = fields_from (c ∷ []) text in if is_space c then skipped else started
fields_from (w ∷ word) (c ∷ text) =
    let ended = fields_from [] text in
    let longer = fields_from ((w ∷ word) ++ (c ∷ [])) text in
    if is_space c then (w ∷ word) ∷ ended else longer

unfoldable pub fields : Text → List Text
unfolding fields_from
fields text = fields_from [] text

abbrev pub extension : Text
extension = codes ".json.zstd"

unfoldable pub generate_cache_file_name : (source_code_sum : Text) → CacheKey → Text
generate_cache_file_name source_code_sum key =
    (key.branch ++ (codes " " ++ (key.revision ++ (codes " " ++ source_code_sum)))) ++ extension

unfoldable pub parse_fields : List Text → CacheKey × Text
parse_fields (branch ∷ revision ∷ sum ∷ []) = (record { branch = branch; revision = revision }, sum)
parse_fields parts = (record { branch = []; revision = [] }, [])

unfoldable pub parse_cache_file_name : Text → CacheKey × Text
unfolding cut_suffix fields parse_fields
parse_cache_file_name cache_file_name = parse_fields (fields (cut_suffix cache_file_name extension))

pub cut_prefix-append : (prefix text : Text) → cut_prefix (prefix ++ text) prefix ≡ some text
unfolding cut_prefix
cut_prefix-append [] text = refl
cut_prefix-append (p ∷ prefix) text =
    let same : (p == p) ≡ true = (nat_beq_iff p p).1 refl in rw same (cut_prefix-append prefix text)

cut_suffix-append : (text suffix : Text) → cut_suffix (text ++ suffix) suffix ≡ text
unfolding cut_suffix
cut_suffix-append text suffix =
    let found : cut_prefix (reverse (text ++ suffix)) (reverse suffix) ≡ some (reverse text) =
      subst (λ t. cut_prefix t (reverse suffix) ≡ some (reverse text))
        (sym (reverse-append text suffix)) (cut_prefix-append (reverse suffix) (reverse text)) in
    ap (or_whole (text ++ suffix)) found ∙ reverse-reverse text

-- A word: not empty, and without white space.
abbrev pub IsWord : Text → Type 0
IsWord [] = ⊥
IsWord (c ∷ word) = All (λ c. is_space c ≡ false) (c ∷ word)

fields_from-word :
    (w : ℕ) (word rest text : Text)
    → All (λ c. is_space c ≡ false) rest
    → fields_from (w ∷ word) (rest ++ (32 ∷ text)) ≡ ((w ∷ word) ++ rest) ∷ fields_from [] text
unfolding fields_from
fields_from-word w word [] text plain =
    ap (λ t. (w ∷ t) ∷ fields_from [] text) (sym (append-nil word))
fields_from-word w word (c ∷ rest) text (here, plain) = rw here (
    fields_from-word w (word ++ (c ∷ [])) rest text plain
    ∙ ap (λ t. (w ∷ t) ∷ fields_from [] text) (append_assoc word (c ∷ []) rest))

fields_from-last :
    (w : ℕ) (word rest : Text)
    → All (λ c. is_space c ≡ false) rest
    → fields_from (w ∷ word) rest ≡ ((w ∷ word) ++ rest) ∷ []
unfolding fields_from
fields_from-last w word [] plain = ap (λ t. (w ∷ t) ∷ []) (sym (append-nil word))
fields_from-last w word (c ∷ rest) (here, plain) = rw here (
    fields_from-last w (word ++ (c ∷ [])) rest plain
    ∙ ap (λ t. (w ∷ t) ∷ []) (append_assoc word (c ∷ []) rest))

fields-word :
    (word text : Text)
    → IsWord word
    → fields_from [] (word ++ (32 ∷ text)) ≡ word ∷ fields_from [] text
unfolding fields_from
fields-word [] text is = elim is [ ]
fields-word (c ∷ word) text (here, plain) = rw here (fields_from-word c [] word text plain)

fields-last : (word : Text) → IsWord word → fields_from [] word ≡ word ∷ []
unfolding fields_from
fields-last [] is = elim is [ ]
fields-last (c ∷ word) (here, plain) = rw here (fields_from-last c [] word plain)

-- The name that is generated for a key is parsed into the key and the checksum of the source code,
-- when the branch, the revision and the checksum are not empty and hold no white space.
pub parse_cache_file_name-generate_cache_file_name :
    (sum : Text) (key : CacheKey)
    → IsWord key.branch
    → IsWord key.revision
    → IsWord sum
    → parse_cache_file_name (generate_cache_file_name sum key) ≡ (key, sum)
unfolding parse_cache_file_name generate_cache_file_name
parse_cache_file_name-generate_cache_file_name sum key branch revision summed =
    let text = key.branch ++ (32 ∷ (key.revision ++ (32 ∷ sum))) in
    let parts : fields text ≡ key.branch ∷ key.revision ∷ sum ∷ [] =
      unfold fields in
      fields-word key.branch (key.revision ++ (32 ∷ sum)) branch
      ∙ ap (λ t. key.branch ∷ t)
          (fields-word key.revision sum revision
            ∙ ap (λ t. key.revision ∷ t) (fields-last sum summed)) in
    ap (λ t. parse_fields (fields t)) (cut_suffix-append text extension) ∙ ap parse_fields parts
