-- ===== src/Aliases/Rewriting.antt =====
-- What `_resolve` (dnf/cli/aliases.py) computes, described without its stack: rewriting of the
-- command line from the left.
use dnf.Base.{
  ℕ, zero, suc, String, ◌≡◌, refl, sym, ◌∙◌, subst, true, false, some, none, [], ◌∷◌, ◌++◌,
  append_assoc, append-nil, take, drop, ◌⊎◌, inl, inr, arith, Bool-cases, String_eq,
}
use dnf.Base.Dict.{lookup}
use dnf.Aliases.{
  Args, AliasTable, Resolver, Outcome, finished, infinite_recursion, out_of_fuel, finish, start,
  pop, after_alias, visit, subresolve, store_prefix, count_options, is_word, is_escaped,
  strip_escape, resolve_args, to_resolved, command_line,
}
use dnf.Aliases.Stack.{ends, repeats, expands, Visit-cases}

module _ (aliases : AliasTable) where
  -- Options move to the prefix one by one, and a leading alias gives way to its words.
  pub data Rewrites : Args → Args → Args → Args → Type 0 where
    done : {options args : Args} → Rewrites options args options args
    option :
        {word : String} {options args options' args' : Args}
        → is_word word ≡ false
        → Rewrites (options ++ word ∷ []) args options' args'
        → Rewrites options (word ∷ args) options' args'
    alias :
        {word : String} {body options args options' args' : Args}
        → lookup word aliases ≡ some body
        → Rewrites options (body ++ args) options' args'
        → Rewrites options (word ∷ args) options' args'

  pub Rewrites-trans :
      {o a o₁ a₁ o₂ a₂ : Args} → Rewrites o a o₁ a₁ → Rewrites o₁ a₁ o₂ a₂ → Rewrites o a o₂ a₂
  Rewrites-trans done r = r
  Rewrites-trans (option h q) r = option h (Rewrites-trans q r)
  Rewrites-trans (alias h q) r = alias h (Rewrites-trans q r)

  -- Where the resolving ends: no word is left, or one that is no alias or is escaped.
  abbrev pub Ends : Args → Type 0
  Ends [] = Unit
  Ends (word ∷ rest) = (lookup word aliases ≡ none) ⊎ (is_escaped word ≡ true)

  options_move :
      (args options rest : Args)
      → Rewrites options
          (args ++ rest)
          (options ++ take (count_options args) args)
          (drop (count_options args) args ++ rest)
  unfolding count_options
  options_move [] options rest = rw append-nil done
  options_move (word ∷ args) options rest = elim (Bool-cases (is_word word)) [
    | inl ends_here ↦ rw ends_here (rw append-nil done)
    | inr moves ↦
        rw moves (option moves (rw append_assoc at (options_move args (options ++ word ∷ []) rest)))
  ]

-- The first word without its '\', where it has one.
unfoldable pub unescape : Args → Args
unescape [] = []
unescape (word ∷ rest) = strip_escape word ∷ rest

module _ (aliases : AliasTable) where
  -- A call that returns `result` has rewritten its arguments, whatever stands behind them.
  pub record Reduces (options args : Args) (result options' : Args) : Type 0 where
    pub words : Args
    pub rewritten : (rest : Args) → Rewrites aliases options (args ++ rest) options' (words ++ rest)
    pub stopped : Ends aliases words
    pub shown : (result ≡ words) ⊎ (result ≡ unescape words)

  abbrev IsSound : (Args → Resolver → Outcome) → Type 0
  IsSound f =
      (args : Args) (s : Resolver) (result : Args) (s' : Resolver)
      → f args s ≡ finished result s'
      → Reduces s.prefix_options args result s'.prefix_options

  finish-Reduces :
      (word : String) (rest : Args) (s : Resolver) (result : Args) (s' : Resolver)
      → Ends aliases (word ∷ rest)
      → finish word rest s ≡ finished result s'
      → Reduces s.prefix_options (word ∷ rest) result s'.prefix_options
  unfolding finish unescape
  finish-Reduces word rest s result s' stopped h = record {
    words = word ∷ rest;
    rewritten = λ more. rw (same h) done;
    stopped = stopped;
    shown = ground arith;
  }
    where
      same : finish word rest s ≡ finished result s' → s'.prefix_options ≡ s.prefix_options
      same h = ground arith

  nil-Reduces :
      {options args options' : Args} (r : Reduces options args [] options')
      → (rest : Args) → Rewrites aliases options (args ++ rest) options' rest
  unfolding unescape
  nil-Reduces {options} {args} {options'} r rest =
      subst (λ w. Rewrites aliases options (args ++ rest) options' (w ++ rest))
        (no_words r.words r.shown) (r.rewritten rest)
    where
      no_words : (words : Args) → ([] ≡ words) ⊎ ([] ≡ unescape words) → words ≡ []
      no_words words shown = ground arith

  -- The words of an alias in front of the words behind its name.
  append-Reduces :
      {options args options' : Args} (first : String) (words rest : Args)
      → Reduces options args (first ∷ words) options'
      → Reduces options (args ++ rest) (first ∷ words ++ rest) options'
  unfolding unescape
  append-Reduces {options} {args} {options'} first words rest r =
      behind r.words r.rewritten r.stopped r.shown
    where
      behind :
          (w : Args)
          → ((more : Args) → Rewrites aliases options (args ++ more) options' (w ++ more))
          → Ends aliases w
          → ((first ∷ words ≡ w) ⊎ (first ∷ words ≡ unescape w))
          → Reduces options (args ++ rest) (first ∷ words ++ rest) options'
      behind [] moves stopped shown = absurd (ground arith)
      behind (v ∷ w) moves stopped shown = record {
        words = v ∷ w ++ rest;
        rewritten = λ more. rw append_assoc (rw append_assoc (moves (rest ++ more)));
        stopped = stopped;
        shown = ground arith;
      }

  after_alias-Reduces :
      (f : Args → Resolver → Outcome) (word : String) (body rest : Args) (s : Resolver)
      (o : Outcome) (result : Args) (s' : Resolver)
      → IsSound f
      → lookup word aliases ≡ some body
      → ((w : Args) (s₁ : Resolver)
          → o ≡ finished w s₁
          → Reduces s.prefix_options body w s₁.prefix_options)
      → after_alias f rest o ≡ finished result s'
      → Reduces s.prefix_options (word ∷ rest) result s'.prefix_options
  unfolding after_alias
  after_alias-Reduces f word body rest s (finished [] s₁) result s' sound found inner h =
      let later = sound rest s₁ result s' h in
      record {
        words = later.words;
        rewritten = λ more. alias found (
            Rewrites-trans aliases (nil-Reduces (inner [] s₁ refl) (rest ++ more))
              (later.rewritten more));
        stopped = later.stopped;
        shown = later.shown;
      }
  after_alias-Reduces f word body rest s (finished (w ∷ ws) s₁) result s' sound found inner h =
      let r = append-Reduces w ws rest (inner (w ∷ ws) s₁ refl) in
      rw (← result_is h) (
        rw (← state_is h) (record {
          words = r.words;
          rewritten = λ more. alias found (rw append_assoc at (r.rewritten more));
          stopped = r.stopped;
          shown = r.shown;
        }))
    where
      result_is : finished (w ∷ ws ++ rest) s₁ ≡ finished result s' → w ∷ ws ++ rest ≡ result
      result_is e = cc

      state_is : finished (w ∷ ws ++ rest) s₁ ≡ finished result s' → s₁ ≡ s'
      state_is e = cc
  after_alias-Reduces f word body rest s infinite_recursion result s' sound found inner h = cc
  after_alias-Reduces f word body rest s out_of_fuel result s' sound found inner h = cc

  visit-IsSound : (f : Args → Resolver → Outcome) → IsSound f → IsSound (visit aliases f)
  unfolding visit unescape
  visit-IsSound f sound [] s result s' h = record {
    words = [];
    rewritten = λ more. rw (options_kept h) done;
    stopped = tt;
    shown = ground arith;
  }
    where
      options_kept :
          finished [] (record s { stack = pop s.stack }) ≡ finished result s'
          → s'.prefix_options ≡ s.prefix_options
      options_kept e = cc
  visit-IsSound f sound (word ∷ rest) s result s' h = elim (Visit-cases aliases f word rest s) [
    | ends stopped e ↦ finish-Reduces word rest s result s' stopped (sym e ∙ h)
    | repeats _ _ _ e ↦ cc
    | expands body found _ e ↦
        after_alias-Reduces f word body rest s _ result s' sound found
          (λ w s₁ p. sound body _ w s₁ p) (sym e ∙ h)
  ]

  subresolve-IsSound : (fuel : ℕ) → IsSound (subresolve aliases fuel)
  unfolding subresolve store_prefix
  subresolve-IsSound zero args s result s' h = cc
  subresolve-IsSound (suc fuel) args s result s' h =
      let n = count_options args in
      let r =
        visit-IsSound (subresolve aliases fuel) (subresolve-IsSound fuel) (drop n args)
          (record s { prefix_options = s.prefix_options ++ take n args }) result s' h in
      record {
        words = r.words;
        rewritten = λ more.
            Rewrites-trans aliases (options_move aliases args s.prefix_options more)
              (r.rewritten more);
        stopped = r.stopped;
        shown = r.shown;
      }

-- A command line that `_resolve` returns consists of options and words that the textual rewriting
-- of the arguments reaches; it has stopped where no alias is left to expand at the front; and the
-- words are shown as they are or with the first one's '\' taken off.
pub record IsResolution (aliases : AliasTable) (args result : Args) : Type 0 where
  pub options : Args
  pub words : Args
  pub rewritten : Rewrites aliases [] args options words
  pub stopped : Ends aliases words
  pub shown : (result ≡ options ++ words) ⊎ (result ≡ options ++ unescape words)

to_resolved-IsResolution :
    (aliases : AliasTable) (args result : Args) (o : Outcome)
    → ((w : Args) (s : Resolver) → o ≡ finished w s → Reduces aliases [] args w s.prefix_options)
    → to_resolved o ≡ command_line result
    → IsResolution aliases args result
unfolding to_resolved
to_resolved-IsResolution aliases args result (finished w s) reduces h =
    let r = reduces w s refl in
    record {
      options = s.prefix_options;
      words = r.words;
      rewritten = rw append-nil at (rw append-nil at (r.rewritten []));
      stopped = r.stopped;
      shown = shown_after r.words r.shown;
    }
  where
    shown_after :
        (words : Args)
        → ((w ≡ words) ⊎ (w ≡ unescape words))
        → ((result ≡ s.prefix_options ++ words) ⊎ (result ≡ s.prefix_options ++ unescape words))
    shown_after words (inl e) = inl (cc)
    shown_after words (inr e) = inr (cc)
to_resolved-IsResolution aliases args result infinite_recursion reduces h = cc
to_resolved-IsResolution aliases args result out_of_fuel reduces h = cc

-- The recursive resolving with its stack refines the textual rewriting: whatever command line it
-- returns, it is a resolution of the arguments.
pub resolve_args-IsResolution :
    (fuel : ℕ) (aliases : AliasTable) (args result : Args)
    → resolve_args fuel aliases args ≡ command_line result
    → IsResolution aliases args result
unfolding resolve_args
resolve_args-IsResolution fuel aliases args result h =
    to_resolved-IsResolution aliases args result (subresolve aliases fuel args start)
      (λ w s e. subresolve-IsSound aliases fuel args start w s e) h
