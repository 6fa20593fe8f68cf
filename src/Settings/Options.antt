-- ===== src/Settings/Options.antt =====
-- What the arguments leave in the map of the configuration manager.
use ohmy_miner_etc.Common.{
  ◌||◌, ℕ, ◌≡◌, refl, ap, ◌∙◌, List, [], ◌∷◌, Bool, true, false, Option, none, some, if◌then◌else◌,
  ◌==◌, list_eq, codes,
}
use ohmy_miner_etc.Settings.{
  Key, pool_url, wallet, worker, devices, threads, log_file, use_tls, key_id, Settings, assign,
  indexed, index, get_pool_config, Word, option, file, usage, other, word_of, Pending, nothing,
  value_of, file_name, take_word, parse_words, parse_settings,
}

-- No argument is an option for TLS.
data IsNotTls : Word → Type 0 where
  sets : {key : Key} → (key_id key == 6) ≡ false → IsNotTls (option key)
  loads : IsNotTls file
  shows : IsNotTls usage
  ignores : IsNotTls other

-- A word that is one thing or another.
either_word : (t : Bool) (x y : Word) → IsNotTls x → IsNotTls y → IsNotTls (if t then x else y)
either_word true x y h k = h
either_word false x y h k = k

word_of-IsNotTls : (arg : List ℕ) → IsNotTls (word_of arg)
unfolding word_of
word_of-IsNotTls arg = either_word (list_eq arg (codes "--pool")) (option pool_url) _ (sets refl) (
    either_word (list_eq arg (codes "--wallet")) (option wallet) _ (sets refl) (
      either_word (list_eq arg (codes "--worker")) (option worker) _ (sets refl) (
        either_word (list_eq arg (codes "--devices")) (option devices) _ (sets refl) (
          either_word (list_eq arg (codes "--threads")) (option threads) _ (sets refl) (
            either_word (list_eq arg (codes "--log")) (option log_file) _ (sets refl) (
              either_word (list_eq arg (codes "--config")) file _ loads (
                either_word (list_eq arg (codes "--help") || list_eq arg (codes "-h")) usage other
                  shows ignores)))))))

abbrev KeepsTls : Pending → Type 0
KeepsTls nothing = Unit
KeepsTls (value_of key) = (key_id key == 6) ≡ false
KeepsTls file_name = Unit

take_word-tls :
    (word : Word) (settings : Settings) (next : Pending → Settings × Bool)
    → IsNotTls word
    → ((pending : Pending) → KeepsTls pending → (next pending).0 use_tls ≡ settings use_tls)
    → (take_word word settings next).0 use_tls ≡ settings use_tls
unfolding take_word
take_word-tls (option key) settings next (sets h) kept = kept (value_of key) h
take_word-tls file settings next loads kept = kept file_name tt
take_word-tls usage settings next shows kept = refl
take_word-tls other settings next ignores kept = kept nothing tt

parse_words-tls :
    (load : List ℕ → Bool) (arguments : List (List ℕ)) (pending : Pending) (settings : Settings)
    → KeepsTls pending
    → (parse_words load arguments pending settings).0 use_tls ≡ settings use_tls
unfolding parse_words assign
parse_words-tls load [] pending settings h = refl
parse_words-tls load (arg ∷ rest) nothing settings h =
    take_word-tls (word_of arg) settings (λ pending. parse_words load rest pending settings)
      (word_of-IsNotTls arg) (λ pending k. parse_words-tls load rest pending settings k)
parse_words-tls load (arg ∷ rest) (value_of key) settings h =
    parse_words-tls load rest nothing (assign settings key arg) tt ∙ rw h refl
parse_words-tls load (arg ∷ rest) file_name settings h = refl

-- Reading another key does not set it either, and reading it gives the empty text.
indexed-tls :
    (settings : Settings) (key : Key) (o : Option (List ℕ))
    → (key_id key == 6) ≡ false
    → (indexed settings key o).1 use_tls ≡ settings use_tls
unfolding indexed assign
indexed-tls settings key none h = rw h refl
indexed-tls settings key (some value) h = refl

index-none : (settings : Settings) (key : Key) → settings key ≡ none → (index settings key).0 ≡ []
unfolding index indexed
index-none settings key e = ap (λ (o : Option (List ℕ)). (indexed settings key o).0) e

-- Whatever the arguments and the files, parsing them on a new map gives a pool configuration without
-- TLS: no option sets it, and what a file holds is not read.
pub parse_settings-tls :
    (load : List ℕ → Bool) (arguments : List (List ℕ))
    → (get_pool_config (parse_settings load arguments (λ k. none)).0).0.tls ≡ false
unfolding get_pool_config index parse_settings list_eq
parse_settings-tls load arguments =
    let s0 = (parse_words load arguments nothing (λ k. none)).0 in
    let s1 = (index s0 pool_url).1 in
    let s2 = (index s1 wallet).1 in
    let s3 = (index s2 worker).1 in
    ap (λ (t : List ℕ). list_eq t (codes "true"))
      (index-none s3 use_tls (
        indexed-tls s2 worker (s2 worker) refl
        ∙ indexed-tls s1 wallet (s1 wallet) refl
        ∙ indexed-tls s0 pool_url (s0 pool_url) refl
        ∙ parse_words-tls load arguments nothing (λ k. none) tt))
