-- ===== src/Http/Handle/Files.antt =====
-- Which files handle_request (inc/http_utility.h) can show.
use boost_web.Common.{
  ℕ, ◌≡◌, refl, sym, ◌∙◌, ap, Bool, true, false, if_cases, [], ◌∷◌, ◌++◌, Bytes, head?, codes,
  arith, append_assoc, Bool-cases, inl, inr,
}
use boost_web.Address.{Address}
use boost_web.Http.Messages.{Messages, Service, Opened}
use boost_web.Http.Target.{slash, is_front, is_legal, path_catenate}
use boost_web.Http.Target.Segments.{segments, any_parent, is_legal-segments}
use boost_web.Http.Handle.{
  back, file_path, send_file, serve_file, call_service, ask_service, dispatch, handle_request,
}
use boost_web.Http.Handle.Index.{index_segments}

-- The path goes on from the document root with a `/`, and without a segment "..".
pub record Inside (doc_root path : Bytes) : Type 0 where
  pub rest : Bytes
  pub leads : path ≡ doc_root ++ rest
  pub starts : is_front slash (head? rest) ≡ true
  pub stays : any_parent (segments rest) ≡ false

back-append : (base : Bytes) (c : ℕ) (cs : Bytes) → back (base ++ c ∷ cs) ≡ back (c ∷ cs)
unfolding back
back-append [] c cs = refl
back-append (b ∷ []) c cs = refl
back-append (b ∷ d ∷ base) c cs = back-append (d ∷ base) c cs

legal_starts : (target : Bytes) → is_legal target ≡ true → is_front slash (head? target) ≡ true
legal_starts target e = let q = is_legal-segments target in ground arith

legal_stays : (target : Bytes) → is_legal target ≡ true → any_parent (segments target) ≡ false
legal_stays target e = let q = is_legal-segments target in ground arith

-- A file that stands for a legal target is inside of the document root.
file_path-Inside :
    (doc_root target : Bytes) → is_legal target ≡ true → Inside doc_root (file_path doc_root target)
unfolding file_path path_catenate
file_path-Inside doc_root [] e = absurd (let q = legal_starts [] e in ground arith)
file_path-Inside doc_root (c ∷ cs) e =
    if_cases (Inside doc_root) (is_front slash (back (doc_root ++ c ∷ cs))) _ _
      (λ ends. record {
        rest = c ∷ cs ++ codes "index.html";
        leads = append_assoc doc_root (c ∷ cs) (codes "index.html");
        starts = legal_starts (c ∷ cs) e;
        stays =
            index_segments c cs (sym (ap (is_front slash) (back-append doc_root c cs)) ∙ ends)
              (legal_stays (c ∷ cs) e);
      })
      (λ _. record {
        rest = c ∷ cs;
        leads = refl;
        starts = legal_starts (c ∷ cs) e;
        stays = legal_stays (c ∷ cs) e;
      })

module _ (m : Messages) {W : Type 0} (service : Service m W) where
  open m use {Request, File, target}

  -- The service with other files.
  abbrev pub with_files : (W → Bytes → Opened File) → Service m W
  with_files files = record service { open_file = files }

  same_dispatch :
      (files : W → Bytes → Opened File) (doc_root : Bytes)
      → ((w : W) (path : Bytes) → Inside doc_root path → service.open_file w path ≡ files w path)
      → (address : Address) (req : Request) → is_legal (target req) ≡ true
      → (is_path : Bool) (w : W)
      → dispatch m service doc_root address req (is_path, w)
        ≡ dispatch m (with_files files) doc_root address req (is_path, w)
  unfolding dispatch serve_file call_service ask_service
  same_dispatch files doc_root same address req e true w =
      ap (λ o. (send_file m req (file_path doc_root (target req)) o, w))
        (same w (file_path doc_root (target req)) (file_path-Inside doc_root (target req) e))
  same_dispatch files doc_root same address req e false w = refl

  -- Two file systems with the same files inside of the document root give the same response to each
  -- request, and leave the service in the same state.
  pub only_files-Inside :
      (files : W → Bytes → Opened File) (doc_root : Bytes)
      → ((w : W) (path : Bytes) → Inside doc_root path → service.open_file w path ≡ files w path)
      → (address : Address) (req : Request) (w : W)
      → handle_request m service doc_root address req w
        ≡ handle_request m (with_files files) doc_root address req w
  unfolding handle_request
  only_files-Inside files doc_root same address req w = elim (Bool-cases (is_legal (target req))) [
    | inl e ↦
        let (is_path, w') = service.target_is_path w (target req) in
        rw e (same_dispatch files doc_root same address req e is_path w')
    | inr e ↦ rw e refl
  ]
