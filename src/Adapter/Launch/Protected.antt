-- ===== src/Adapter/Launch/Protected.antt =====
-- The arguments of the CLIs that read a stream, apart from what users configure.
use aiclibridge.Prelude.{
  ◌≡◌, refl, ap, ◌∙◌, sym, Text, List, [], ◌∷◌, ◌++◌, some, is_empty, Bool, true, false, Lacks, All,
  All-append, append-nil, arith, ◌==◌, ◌&&◌, not, all, ==_iff, text_eq, text_eq_iff, Bool-cases,
  inl, inr,
}
use aiclibridge.Adapter.{ExecOptions}
use aiclibridge.Adapter.Args.{
  Blocked, BlockedArgMode, blocked_mode, claude_blocked_args, filter_custom_args, filter_from,
}
use aiclibridge.Adapter.Args.Filtering.{Spells, filter_custom_args-blocks}
use aiclibridge.Adapter.Launch.{AcpBackendConfig}
use aiclibridge.Adapter.Launch.Arguments.{
  build_claude_args, build_qwen_args, build_codebuddy_args, build_gemini_args, build_acp_args,
  claude_flags, qwen_flags, codebuddy_flags, gemini_flags, user_args, qwen_blocked_args,
  codebuddy_blocked_args, gemini_blocked_args, acp_blocked_args,
}

-- A flag that is not empty and holds no `=`.
abbrev plain_flag : Text → Bool
plain_flag f = not (is_empty f) && all (λ c. not (c == b'=')) f

abbrev PlainTable : Blocked → Type 0
PlainTable table = all (λ (entry : Text × BlockedArgMode). plain_flag entry.0) table ≡ true

Lacks-of_all : (s : Text) → all (λ c. not (c == b'=')) s ≡ true → Lacks b'=' s
Lacks-of_all [] h = tt
Lacks-of_all (c ∷ s) h =
    (ground (arith, ==_iff c b'='), Lacks-of_all s (ground (arith, ==_iff c b'=')))

blocked_mode-plain :
    (table : Blocked) (f : Text) (mode : BlockedArgMode)
    → PlainTable table
    → blocked_mode f table ≡ some mode
    → plain_flag f ≡ true
unfolding blocked_mode
blocked_mode-plain [] f mode p h = cc
blocked_mode-plain ((g, m) ∷ table) f mode p h = elim (Bool-cases (text_eq g f)) [
  | inl e ↦
      let same : g ≡ f = ground (arith, text_eq_iff g f) in sym (ap plain_flag same) ∙ ground arith
  | inr e ↦ blocked_mode-plain table f mode (ground arith) (ground arith)
]

user_args-blocked :
    (table : Blocked) (opts : ExecOptions) (f : Text) (mode : BlockedArgMode)
    → PlainTable table
    → blocked_mode f table ≡ some mode
    → All (λ arg. ¬ (Spells f arg)) (user_args table opts)
unfolding user_args
user_args-blocked table opts f mode p h =
    let plain = blocked_mode-plain table f mode p h in
    let lacks = Lacks-of_all f (ground arith) in
    let filled : is_empty f ≡ false = ground arith in
    All-append _ _ _ (filter_custom_args-blocks opts.extra_args table f mode h lacks filled)
      (filter_custom_args-blocks opts.custom_args table f mode h lacks filled)

-- The CLIs whose arguments are their own flags and then the users', and their tables.
pub data StreamCli : Type 0 where
  claude_cli qwen_cli codebuddy_cli gemini_cli : StreamCli
  acp_cli : AcpBackendConfig → StreamCli

unfoldable pub build_args : StreamCli → ExecOptions → List Text
build_args claude_cli opts = build_claude_args opts
build_args qwen_cli opts = build_qwen_args opts
build_args codebuddy_cli opts = build_codebuddy_args opts
build_args gemini_cli opts = build_gemini_args opts
build_args (acp_cli bc) opts = build_acp_args bc opts

unfoldable pub blocked_args : StreamCli → Blocked
blocked_args claude_cli = claude_blocked_args
blocked_args qwen_cli = qwen_blocked_args
blocked_args codebuddy_cli = codebuddy_blocked_args
blocked_args gemini_cli = gemini_blocked_args
blocked_args (acp_cli bc) = acp_blocked_args

abbrev pub without_user_args : ExecOptions → ExecOptions
without_user_args opts = record opts { extra_args = []; custom_args = [] }

blocked_args-plain : (cli : StreamCli) → PlainTable (blocked_args cli)
unfolding blocked_args claude_blocked_args
blocked_args-plain claude_cli = refl
blocked_args-plain qwen_cli = refl
blocked_args-plain codebuddy_cli = refl
blocked_args-plain gemini_cli = refl
blocked_args-plain (acp_cli bc) = refl

args-split :
    (table : Blocked) (flags : List Text) (opts : ExecOptions)
    → flags ++ user_args table opts
      ≡ (flags ++ user_args table (without_user_args opts)) ++ user_args table opts
unfolding user_args filter_custom_args filter_from
args-split table flags opts = ap (λ (front : List Text). front ++ _) (sym (append-nil flags))

build_args-split :
    (cli : StreamCli) (opts : ExecOptions)
    → build_args cli opts
      ≡ build_args cli (without_user_args opts) ++ user_args (blocked_args cli) opts
unfolding build_args blocked_args build_claude_args build_qwen_args build_codebuddy_args
    build_gemini_args build_acp_args
build_args-split claude_cli opts = args-split claude_blocked_args (claude_flags opts) opts
build_args-split qwen_cli opts = args-split qwen_blocked_args (qwen_flags opts) opts
build_args-split codebuddy_cli opts = args-split codebuddy_blocked_args (codebuddy_flags opts) opts
build_args-split gemini_cli opts = args-split gemini_blocked_args (gemini_flags opts) opts
build_args-split (acp_cli bc) opts = args-split acp_blocked_args bc.acp_args opts

-- For claude, qwen, codebuddy, gemini and every ACP CLI: the arguments are those of the same
-- options without any extra or custom argument, in front and unchanged, and then arguments of
-- which none is a flag of the CLI's table, neither alone nor as `flag=value`.
pub build_args-protected :
    (cli : StreamCli) (opts : ExecOptions)
    → (user : List Text) × (build_args cli opts ≡ build_args cli (without_user_args opts) ++ user)
      × ((f : Text) (mode : BlockedArgMode)
          → blocked_mode f (blocked_args cli) ≡ some mode
          → All (λ arg. ¬ (Spells f arg)) user)
build_args-protected cli opts = (
  user_args (blocked_args cli) opts,
  build_args-split cli opts,
  λ f mode h. user_args-blocked (blocked_args cli) opts f mode (blocked_args-plain cli) h,
)
