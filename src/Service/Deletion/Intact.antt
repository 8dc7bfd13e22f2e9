-- ===== src/Service/Deletion/Intact.antt =====
-- What a response that matches says of a memory.
use mem0_platform_sidecar.Prelude.{
  String, ◌≡◌, refl, sym, ap, ◌∙◌, inl, inr, Bool, true, false, not, ◌&&◌, Option, none, some,
  arith, eq_iff, eq_refl, and_true, some_inj, Option-cases,
}
use mem0_platform_sidecar.Service.Sources.{equals_text}
use mem0_platform_sidecar.Json.{Json, null, boolean, int, float, text, array, object, Fields, get}
use mem0_platform_sidecar.Memories.Reads.{is_among}
use mem0_platform_sidecar.Service.Upstream.{
  memory_text, fingerprint, extract_memory_ids, is_pinned_metadata, is_pinned_text, or_else,
  record_is_pinned, is_marked, found, Server, response_matches,
}

-- What the server must have returned for a memory: an object with the id of the memory among its ids,
-- a text with the expected digest, the marks of the project and the app, and no sign of a pin.
pub record IsIntact (server : Server) (hashes : Fields) (project_id app_id id : String)
    (response : Fields) : Type 0 where
  pub named : is_among (extract_memory_ids response) id ≡ true
  pub content : String
  pub has_content : memory_text response ≡ some content
  pub expected : get id hashes ≡ some (text (server.digest content))
  pub metadata : Fields
  pub has_metadata : get "metadata" response ≡ some (object metadata)
  pub of_project : get "_mem0_sidecar_project_id" metadata ≡ some (text project_id)
  pub of_app : get "_mem0_sidecar_app_id" metadata ≡ some (text app_id)
  pub unpinned : ¬ (get "pinned" metadata ≡ some (boolean true))
  pub plain : is_pinned_text server (or_else (get "memory" response) (get "text" response)) ≡ false

abbrev pub HasIntact : Server → Fields → String → String → String → Type 0
HasIntact server hashes project_id app_id id =
    (response : Fields) × (server.get_memory id ≡ found (object response))
    × IsIntact server hashes project_id app_id id response

equals_text-some :
    (value : Option String) (json : Option Json)
    → equals_text value json ≡ true
    → (t : String) × (value ≡ some t) × (json ≡ some (text t))
equals_text-some none (some (text t)) h = cc
equals_text-some (some v) (some (text t)) h =
    let e : v ≡ t = ground (arith, eq_iff v t) in (t, ap some e, refl)
equals_text-some value none h = cc
equals_text-some value (some null) h = cc
equals_text-some value (some (boolean b)) h = cc
equals_text-some value (some (int n)) h = cc
equals_text-some value (some (float b)) h = cc
equals_text-some value (some (array items)) h = cc
equals_text-some value (some (object fields)) h = cc

equals_text_refl : (t : String) → equals_text (some t) (some (text t)) ≡ true
equals_text_refl t = eq_refl t

module _ (server : Server) (hashes : Fields) (project_id app_id id : String) where
  abbrev tests : Json → Bool
  tests = response_matches server id (get id hashes) project_id app_id

  marked :
      (json : Option Json)
      → is_marked project_id app_id json ≡ true
      → (metadata : Fields) × (json ≡ some (object metadata))
        × (get "_mem0_sidecar_project_id" metadata ≡ some (text project_id))
        × (get "_mem0_sidecar_app_id" metadata ≡ some (text app_id))
  marked (some (object metadata)) h =
      let (a, b) =
        and_true (equals_text (some project_id) (get "_mem0_sidecar_project_id" metadata)) _ h in
      let (t, e, f) = equals_text-some _ _ a in
      let (u, g, i) = equals_text-some _ _ b in
      (
        metadata,
        refl,
        f ∙ ap (λ x. some (text x)) (sym (some_inj e)),
        i ∙ ap (λ x. some (text x)) (sym (some_inj g)),
      )
  marked none h = cc
  marked (some null) h = cc
  marked (some (boolean b)) h = cc
  marked (some (int n)) h = cc
  marked (some (float b)) h = cc
  marked (some (text t)) h = cc
  marked (some (array items)) h = cc

  fingerprint-some :
      (response : Fields) (t : String)
      → fingerprint server response ≡ some t
      → (content : String) × (memory_text response ≡ some content) × (server.digest content ≡ t)
  unfolding fingerprint
  fingerprint-some response t h = elim (Option-cases (memory_text response)) [
    | inl e ↦
        let h' : ◌≡◌ {A = Option String} none (some t) = rw (fingerprint, e) at h in absurd (cc)
    | inr (c, e) ↦
        let h' : ◌≡◌ {A = Option String} (some (server.digest c)) (some t) =
          rw (fingerprint, e) at h in
        (c, e, some_inj h')
  ]

  hashed-content :
      (response : Fields)
      → equals_text (fingerprint server response) (get id hashes) ≡ true
      → (content : String) × (memory_text response ≡ some content)
        × (get id hashes ≡ some (text (server.digest content)))
  hashed-content response h =
      let (t, e, f) = equals_text-some _ _ h in
      let (content, c, d) = fingerprint-some response t e in
      (content, c, f ∙ ap (λ x. some (text x)) (sym d))

  not_pinned :
      (o : Option Json)
      → ¬ (o ≡ some (boolean true))
      → (elim o [ some (boolean b) ↦ b | _ ↦ false ]) ≡ false
  not_pinned none h = refl
  not_pinned (some (boolean true)) h = absurd (h refl)
  not_pinned (some (boolean false)) h = refl
  not_pinned (some null) h = refl
  not_pinned (some (int n)) h = refl
  not_pinned (some (float b)) h = refl
  not_pinned (some (text t)) h = refl
  not_pinned (some (array items)) h = refl
  not_pinned (some (object fields)) h = refl

  pinned :
      (metadata : Fields)
      → get "pinned" metadata ≡ some (boolean true)
      → is_pinned_metadata (some (object metadata)) ≡ true
  pinned metadata p = ap (λ (o : Option Json). elim o [ some (boolean b) ↦ b | _ ↦ false ]) p

  matches-IsIntact :
      (response : Fields)
      → tests (object response) ≡ true
      → IsIntact server hashes project_id app_id id response
  unfolding response_matches record_is_pinned
  matches-IsIntact response h =
      let all : (is_among (extract_memory_ids response) id
            && equals_text (fingerprint server response) (get id hashes)
            && not (record_is_pinned server response)
            && is_marked project_id app_id (get "metadata" response))
          ≡ true =
        h in
      let named : is_among (extract_memory_ids response) id ≡ true = ground (arith, all) in
      let hashed : equals_text (fingerprint server response) (get id hashes) ≡ true =
        ground (arith, all) in
      let free : record_is_pinned server response ≡ false = ground (arith, all) in
      let marks : is_marked project_id app_id (get "metadata" response) ≡ true =
        ground (arith, all) in
      let (content, c, f) = hashed-content response hashed in
      let (metadata, m, of_project, of_app) = marked (get "metadata" response) marks in
      let unmarked : is_pinned_metadata (get "metadata" response) ≡ false = ground (arith, free) in
      record {
        named = named;
        content = content;
        has_content = c;
        expected = f;
        metadata = metadata;
        has_metadata = m;
        of_project = of_project;
        of_app = of_app;
        unpinned = λ p.
            let yes : is_pinned_metadata (some (object metadata)) ≡ true = pinned metadata p in
            let no : is_pinned_metadata (some (object metadata)) ≡ false = rw m at unmarked in cc;
        plain = ground (arith, free);
      }

  pub IsIntact-matches :
      (response : Fields)
      → IsIntact server hashes project_id app_id id response
      → tests (object response) ≡ true
  unfolding response_matches record_is_pinned fingerprint
  IsIntact-matches response i =
      let free : is_pinned_metadata (some (object i.metadata)) ≡ false =
        not_pinned (get "pinned" i.metadata) i.unpinned in
      rw (response_matches, i.named, fingerprint, i.has_content, i.expected)
        (rw
          (
            eq_refl (server.digest i.content),
            record_is_pinned,
            i.has_metadata,
            free,
            i.plain,
            i.of_project,
            i.of_app,
          )
          (rw (eq_refl project_id, eq_refl app_id) refl))

pub intact :
    (server : Server) (hashes : Fields) (project_id app_id id : String) (response : Json)
    → server.get_memory id ≡ found response
    → response_matches server id (get id hashes) project_id app_id response ≡ true
    → HasIntact server hashes project_id app_id id
unfolding response_matches
intact server hashes project_id app_id id (object fields) e m =
    (fields, e, matches-IsIntact server hashes project_id app_id id fields m)
intact server hashes project_id app_id id null e m = cc
intact server hashes project_id app_id id (boolean b) e m = cc
intact server hashes project_id app_id id (int n) e m = cc
intact server hashes project_id app_id id (float b) e m = cc
intact server hashes project_id app_id id (text t) e m = cc
intact server hashes project_id app_id id (array items) e m = cc
