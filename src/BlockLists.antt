-- ===== src/BlockLists.antt =====
-- The block lists of server.c, redirect.c and multiproc_serv.c over the same file.
use proxy.Base.{
  ℕ, ◌≡◌, sym, ◌∙◌, ap, ◌≢◌, ◌↔◌, inl, inr, true, some, List, [], ◌∷◌, ◌++◌, append-nil, str_eq,
  eq_of_str_eq, Bool-cases, subst,
}
use proxy.CString.{starts_with}
use proxy.CString.Laws.{starts_with_self}
use proxy.Sys.{done}
use proxy.Sys.Laws.{and_then-done}
use proxy.SimpleSet.{SimpleSet, IsLawful}
use proxy.Server
use proxy.Server.{strip_line, check_blocklist}
use proxy.Server.Lines.{OnList, strip_line-Names}
use proxy.Server.Blocklist.{Readable, AllStored, check_blocklist_iff}
use proxy.Redirect
use proxy.Redirect.Blocking.{Prefixed, load_blocks}
use proxy.MultiprocServ
use proxy.MultiprocServ.{scan_lines}
use proxy.MultiprocServ.Fetching.{scan_lines-true}

OnList-Prefixed : (host : List ℕ) (lines : List (List ℕ)) → OnList host lines → Prefixed host lines
OnList-Prefixed host [] on = on
OnList-Prefixed host (line ∷ lines) (inl named) = inl (
  host,
  named,
  subst (λ t. starts_with host t ≡ true) (append-nil host) (starts_with_self host []),
)
OnList-Prefixed host (line ∷ lines) (inr on) = inr (OnList-Prefixed host lines on)

snoc-ne : (s : List ℕ) (last : ℕ) → s ++ (last ∷ []) ≢ []
snoc-ne [] last e = cc
snoc-ne (x ∷ s) last e = cc

load-Readable :
    (S : SimpleSet) (s : S.State) (lines : List (List ℕ)) {s' : S.State}
    → Server.load S s lines ≡ done s'
    → Readable lines
unfolding Server.load
load-Readable S s [] h = tt
load-Readable S s (line ∷ lines) h =
    let (key, e, h') = and_then-done (strip_line line) _ h in
    let (last, text) = strip_line-Names line key e in
    (
      λ none_left. snoc-ne key last (sym text ∙ none_left),
      load-Readable S (S.set_add s key).0 lines h',
    )

scan_lines-OnList :
    (buf : List ℕ) (lines : List (List ℕ)) → scan_lines buf lines ≡ done true → OnList buf lines
unfolding scan_lines
scan_lines-OnList buf [] h = absurd (cc)
scan_lines-OnList buf (line ∷ lines) h =
    let (key, e, h') = and_then-done (strip_line line) _ h in
    elim (Bool-cases (str_eq buf key)) [
      | inl same ↦ inl (strip_line-Names line buf (e ∙ ap done (sym (eq_of_str_eq buf key same))))
      | inr other ↦ inr (scan_lines-OnList buf lines (rw other at h'))
    ]

-- If the three programs load the same file without an undefined access and every `set_add` stores
-- its key, then server.c and multiproc_serv.c block the same hosts, and redirect.c blocks each of
-- them.
pub same_file-agree :
    (S : SimpleSet) (L : IsLawful S) (lines : List (List ℕ)) (host : List ℕ) {s : S.State}
    {block_arr : List (List ℕ)}
    → Server.load S S.set_init lines ≡ done s
    → AllStored S S.set_init lines
    → Redirect.load (some lines) ≡ done block_arr
    → ((check_blocklist S s host ≡ 1) ↔ (MultiprocServ.is_blocked (some lines) host ≡ done true))
      × ((check_blocklist S s host ≡ 1) → Redirect.is_blocked block_arr host ≡ true)
unfolding MultiprocServ.is_blocked
same_file-agree S L lines host {s} {block_arr} loaded stored pushed =
    let on = check_blocklist_iff S L lines host loaded stored in
    let (_, prefixed) = load_blocks lines block_arr host pushed in
    (
      (
        λ c. scan_lines-true host lines (load-Readable S S.set_init lines loaded) (on.0 c),
        λ h. on.1 (scan_lines-OnList host lines h),
      ),
      λ c. prefixed.1 (OnList-Prefixed host lines (on.0 c)),
    )
