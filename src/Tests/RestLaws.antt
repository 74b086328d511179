-- ===== src/Tests/RestLaws.antt =====
-- The Podman in memory keeps to what the client relies on.
use text.Mathlib.TextLemmas.{append_assoc, nil-append as text_nil, cons-append as text_cons}
use mathlib.Core.List.{reverse-append}
use Prim.Native.Char.{code, nul}
use home_server_deployer.Prelude.{
  Bool-cases, inl, inr, ℕ, String, ◌<>◌, ◌≡◌, refl, sym, subst, fun_ext, ap, ◌∙◌, Bool, true, false,
  ◌||◌, Option, none, some, List, [], ◌∷◌, reverse, ltb, ◌==◌, eq_iff, ==_iff, arith,
}
use home_server_deployer.Text.{split, contains_any}
use home_server_deployer.Text.Utf8.{byte_len}
use home_server_deployer.Text.SplitLaws.{split-append, split-eq-singleton}
use home_server_deployer.Text.Escape.{path_escape}
use home_server_deployer.Text.Segments.{no_slash_in_escape, no_question_in_escape}
use home_server_deployer.Text.EscapeLaws.{path_escape-injective}
use home_server_deployer.Act.{ok, ok-injective}
use home_server_deployer.Error.{Error}
use home_server_deployer.Engine.Sources.{assign}
use home_server_deployer.Podman.Http.{Response}
use home_server_deployer.Podman.Containers.{answered, is_answered}
use home_server_deployer.Podman.Client.{podman_base}
use home_server_deployer.Podman.ClientLaws.{IsFaithful, client_backend-IsFaithful}
use home_server_deployer.Podman.RestLaws.{
  ServesQuadlets, file_request, delete_request, delete_options,
}
use home_server_deployer.Tests.Rest.{
  RestHost, rest_files, cut, named, file_answer, file_of, read_answer, put, drop, first, serve,
  fake_http,
}

named-path_escape :
    (ns : List String) (name n : String) → named ns (path_escape name) ≡ some n → n ≡ name
unfolding named
named-path_escape [] name n h = cc
named-path_escape (m ∷ ns) name n h = ground (
  arith,
  eq_iff (path_escape m) (path_escape name),
  path_escape-injective m name,
  named-path_escape ns name n,
)

cut-append :
    (c : Prim.Native.Char.Char) (a b : String)
    → contains_any a (code c ∷ []) ≡ false
    → cut (code c) (a <> String.◌∷◌ c b) ≡ (a, b)
unfolding cut contains_any
cut-append c String.[] b h = rw (text_nil (String.◌∷◌ c b), (==_iff (code c) (code c)).1 refl) refl
cut-append c (String.◌∷◌ d a) b h =
    rw (text_cons d a (String.◌∷◌ c b), differs h, cut-append c a b (rest h)) refl
  where
    differs : contains_any (String.◌∷◌ d a) (code c ∷ []) ≡ false → (code d == code c) ≡ false
    differs k = ground arith

    rest :
        contains_any (String.◌∷◌ d a) (code c ∷ []) ≡ false → contains_any a (code c ∷ []) ≡ false
    rest k = ground arith

contains_any-append :
    (a b : String) (cs : List ℕ)
    → contains_any (a <> b) cs ≡ (contains_any a cs || contains_any b cs)
unfolding contains_any
contains_any-append String.[] b cs = rw (text_nil b) refl
contains_any-append (String.◌∷◌ d a) b cs =
    rw (text_cons d a b) (ground (arith, contains_any-append a b cs))

-- The last segment of a path.
last_segment :
    (x e : String)
    → contains_any e (b'/' ∷ []) ≡ false
    → reverse (split b'/' (x <> ("/" <> e))) ≡ e ∷ reverse (split b'/' x)
last_segment x e h =
    rw (split-append x e, split-eq-singleton b'/' e h) (reverse-append (split b'/' x) (e ∷ []))

quadlets_path : (r : String) → "/libpod/quadlets/" <> r ≡ "/libpod/quadlets" <> ("/" <> r)
quadlets_path r = append_assoc "/libpod/quadlets" "/" r

abbrev before_name : String → String → String
before_name base api = base <> ("/v" <> (api <> "/libpod/quadlets"))

file_url :
    (base api name : String)
    → (file_request base api name).url
      ≡ (before_name base api <> ("/" <> path_escape name)) <> ("/" <> "file")
file_url base api name = simp (quadlets_path (path_escape name <> "/file"), append_assoc)

delete_url :
    (base api name : String) (force : Bool)
    → (delete_request base api name force).url
      ≡ before_name base api <> ("/" <> (path_escape name <> ("?" <> delete_options force)))
delete_url base api name force = simp (quadlets_path (path_escape name), append_assoc)

file_plain : contains_any "file" (b'/' ∷ []) ≡ false
unfolding contains_any
file_plain = refl

options_plain : (force : Bool) → contains_any (delete_options force) (b'/' ∷ []) ≡ false
unfolding contains_any
options_plain true = refl
options_plain false = refl

question_plain : contains_any "?" (b'/' ∷ []) ≡ false
unfolding contains_any
question_plain = refl

file_segments :
    (base api name : String)
    → reverse (split b'/' (file_request base api name).url)
      ≡ "file" ∷ path_escape name ∷ reverse (split b'/' (before_name base api))
file_segments base api name =
    ap (λ u. reverse (split b'/' u)) (file_url base api name)
    ∙ (last_segment (before_name base api <> ("/" <> path_escape name)) "file" plain
        ∙ ap (λ ss. "file" ∷ ss)
            (last_segment (before_name base api) (path_escape name) (no_slash_in_escape name)))
  where
    plain : contains_any "file" (b'/' ∷ []) ≡ false
    plain = file_plain

question : (x : String) → "?" <> x ≡ String.◌∷◌ "?" x
question x = text_cons "?" String.[] x ∙ ap (String.◌∷◌ "?") (text_nil x)

delete_segment :
    (base api name : String) (force : Bool)
    → (cut b'?' (first (reverse (split b'/' (delete_request base api name force).url)))).0
      ≡ path_escape name
delete_segment base api name force =
    rw
      (
        delete_url base api name force,
        last_segment (before_name base api) (path_escape name <> ("?" <> delete_options force))
            plain,
        question (delete_options force),
      )
      (ap (λ (p : String × String). p.0)
        (cut-append "?" (path_escape name) (delete_options force) no_question))
  where
    no_question : contains_any (path_escape name) (b'?' ∷ []) ≡ false
    no_question = no_question_in_escape name

    plain : contains_any (path_escape name <> ("?" <> delete_options force)) (b'/' ∷ []) ≡ false
    plain =
        rw
          (
            contains_any-append (path_escape name) ("?" <> delete_options force) (b'/' ∷ []),
            contains_any-append "?" (delete_options force) (b'/' ∷ []),
            no_slash_in_escape name,
            options_plain force,
            question_plain,
          )
          refl

file_answer-ok :
    (r : Option String) (resp : Response)
    → file_answer r ≡ ok resp
    → resp.status_code ≡ 200
    → r ≡ some resp.body
file_answer-ok none resp h k = ground arith
file_answer-ok (some s) resp h k = cc

file_of-ok :
    (w : RestHost) (name : String) (o : Option String)
    → named w.names (path_escape name) ≡ o
    → (resp : Response) → file_answer (file_of o w) ≡ ok resp
    → resp.status_code ≡ 200
    → rest_files w name ≡ some resp.body
file_of-ok w name none p resp h k = ground arith
file_of-ok w name (some n) p resp h k =
    subst (λ m. rest_files w m ≡ some resp.body) (named-path_escape w.names name n p)
      (file_answer-ok (rest_files w n) resp h k)

put-created :
    (w : RestHost) (name content : String) (o : Option String)
    → w.files name ≡ o
    → is_answered (answered (put (name, content) o w).0) ≡ true
    → (rest_files w name ≡ none)
      × (rest_files (put (name, content) o w).1 ≡ assign name (some content) (rest_files w))
unfolding assign
put-created w name content none p h = (rw p refl, fun_ext λ j. ground (arith, eq_iff name j))
put-created w name content (some s) p h = cc

-- An answer other than 200.
not_answered :
    {P : Type 0} (r : Response) (resp : Response)
    → r.status_code ≡ 200
    → ok r ≡ ok resp
    → (resp.status_code == 200) ≡ false
    → P
not_answered r resp status sent refused =
    let same : r ≡ resp = ok-injective sent in
    cc (
      subst (λ (x : Response). (x.status_code == 200) ≡ false) (sym same) refused,
      (==_iff r.status_code 200).1 status,
    )

put-refused :
    (w : RestHost) (entry : String × String) (o : Option String) (resp : Response)
    → (put entry o w).0 ≡ ok resp
    → (resp.status_code == 200) ≡ false
    → rest_files (put entry o w).1 ≡ rest_files w
put-refused w entry none resp sent h = not_answered _ resp refl sent h
put-refused w entry (some s) resp sent h = refl

drop-deleted :
    (w : RestHost) (name : String) (o r : Option String)
    → named w.names (path_escape name) ≡ o
    → is_answered (answered (drop o r w).0) ≡ true
    → rest_files (drop o r w).1 ≡ assign name none (rest_files w)
unfolding assign
drop-deleted w name none r p h = cc
drop-deleted w name (some n) none p h = cc
drop-deleted w name (some n) (some s) p h =
    rw (← named-path_escape w.names name n p) (fun_ext λ j. ground (arith, eq_iff n j))

drop-refused :
    (w : RestHost) (o r : Option String) (resp : Response)
    → (drop o r w).0 ≡ ok resp
    → (resp.status_code == 200) ≡ false
    → rest_files (drop o r w).1 ≡ rest_files w
drop-refused w none r resp sent h = refl
drop-refused w (some n) none resp sent h = refl
drop-refused w (some n) (some s) resp sent h = not_answered _ resp refl sent h

archive-entry :
    (name content archive : String)
    → fake_http.tar_file name 0o644 content ≡ ok archive
    → cut 0 archive ≡ (name, content)
archive-entry name content archive h =
    subst (λ a. cut 0 a ≡ (name, content)) made (cut-append nul name content (ground arith))
  where
    made : name <> String.◌∷◌ nul content ≡ archive
    made = ground arith

whole_text :
    (limit : ℕ) (body text : String)
    → fake_http.read_limited limit body ≡ (text, none)
    → text ≡ body
whole_text limit body text h = elim (Bool-cases (ltb (byte_len body) limit)) [
  | inl fits ↦ ap (λ (p : String × Option Error). p.0) (sym (rw fits at h))
  | inr cut_off ↦ cc (rw cut_off at h)
]

pub fake-ServesQuadlets : (base : String) → ServesQuadlets fake_http base rest_files
unfolding serve
fake-ServesQuadlets base = record {
  quiet_reads = λ r h w. ground (arith, eq_iff r.method "GET");
  file = λ api name w resp h k.
      file_of-ok w name (named w.names (path_escape name)) refl resp
        (sym (ap (λ ss. read_answer ss w) (file_segments base api name)) ∙ h) k;
  created = λ api name content archive w h k.
      let e = archive-entry name content archive h in
      subst
        (λ (en : String × String).
          is_answered (answered (put en (w.files en.0) w).0) ≡ true
          → (rest_files w name ≡ none)
            × (rest_files (put en (w.files en.0) w).1 ≡ assign name (some content) (rest_files w)))
        (sym e) (put-created w name content (w.files name) refl) k;
  not_created = λ api archive w. put-refused w (cut 0 archive) (w.files (cut 0 archive).0);
  deleted = λ api name force w. rw (delete_segment base api name force) (
      drop-deleted w name (named w.names (path_escape name))
        (file_of (named w.names (path_escape name)) w) refl);
  not_deleted = λ api name force w. rw (delete_segment base api name force) (
      drop-refused w (named w.names (path_escape name))
        (file_of (named w.names (path_escape name)) w));
  read_whole = λ limit body text h k. whole_text limit body text h;
}

client_backend-IsFaithful_example :
    IsFaithful fake_http podman_base rest_files (fake-ServesQuadlets podman_base)
client_backend-IsFaithful_example =
    client_backend-IsFaithful fake_http podman_base rest_files (fake-ServesQuadlets podman_base)
