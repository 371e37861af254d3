-- ===== src/Agent/Handlers/Documents.antt =====
-- workers/src/zippy_workers/handlers.py: a document is read and stored, and a proof of delivery
-- moves its order on.
use new_logistic.Prelude.{
  String, Bool, true, false, List, [], ◌∷◌, ◌++◌, not, arith, ◌≡◌, ◌⊎◌, if◌then◌else◌, string_eq,
}
use new_logistic.Prelude.Json.{
  Json, Fields, null, str, end, field, get, get_or, truthy, is_str, fields_of,
}
use new_logistic.Agent.Handlers.{
  Call, transition_order, fetch_text, upsert_document, answered, raised, result, Ports, Action,
  succeed, refuse, first_chars, Python, text_of, ask, advance, has_value,
}

module _ (python : Python) (answer : Ports) where
  -- The last step of an upload, and its two ends.
  finish_upload : String → Json → Bool → Json → Json → Action
  finish_upload order_id doc_id is_pod provider confidence =
      let stored = succeed (
        field "doc_id" doc_id (
          field "ocr_provider" provider (
            field "ocr_confidence" confidence
              (field "advanced_to" (if is_pod then str "delivered" else null) end)))) in
      if is_pod
      then advance answer order_id "delivered" stored stored (λ message calls. (
        result (record {
          ok = false;
          detail = field "error" (str (first_chars 200 message)) (field "doc_id" doc_id end);
        }),
        calls,
      ))
      else stored

  -- `fetch_text` stands for the download and the extraction, whose exceptions are caught; its answer
  -- has the fields of the OCR result.
  unfoldable pub process_document_upload : Fields → Action
  unfolding finish_upload
  process_document_upload payload =
      let order_id = get "order_id" payload in
      let doc_type = get_or "document_type" (str "other") payload in
      let image_url = get "image_url" payload in
      let store = λ (ocr_text confidence provider : Json).
        ask answer
          (upsert_document (text_of python order_id) doc_type image_url ocr_text confidence provider
            (get "uploaded_by" payload))
          (λ doc_id.
            finish_upload (text_of python order_id) doc_id (is_str "pod" doc_type) provider
              confidence) in
      if not (truthy order_id)
      then refuse "missing order_id"
      else if not (truthy image_url)
      then refuse "missing image_url"
      else (λ calls. elim (answer calls (fetch_text image_url)) [
        | raised name message ↦
            store null null (str "ocr_failed") (calls ++ fetch_text image_url ∷ [])
        | answered ocr ↦
            if is_str "tesseract_unavailable" (get "provider" (fields_of ocr))
            then store null null null (calls ++ fetch_text image_url ∷ [])
            else store (get "raw_text" (fields_of ocr)) (get "confidence" (fields_of ocr))
                (get "provider" (fields_of ocr)) (calls ++ fetch_text image_url ∷ [])
      ])

  -- The calls of an upload: the text is fetched, the document of the order is stored, whether the
  -- text was read or not, and then, exactly for a proof of delivery that was stored, the order is
  -- moved to `delivered`.
  abbrev pub IsUpload : String → Bool → List Call → Type 0
  IsUpload id pod (fetch_text u ∷ upsert_document i d u' t c p b ∷ []) =
      (i ≡ id)
      × ((pod ≡ false)
          ⊎ (has_value (answer (fetch_text u ∷ []) (upsert_document i d u' t c p b)) ≡ false))
  IsUpload id pod (fetch_text u ∷ upsert_document i d u' t c p b ∷ transition_order j s ∷ []) =
      (i ≡ id)
      × (j ≡ id)
      × (s ≡ "delivered")
      × (pod ≡ true)
      × (has_value (answer (fetch_text u ∷ []) (upsert_document i d u' t c p b)) ≡ true)
  IsUpload id pod _ = ⊥

  -- An upload of an order with an image fetches the text, stores the document of that order once,
  -- whether the text was read or not, and then, exactly if it is a proof of delivery and was stored,
  -- asks to move the order to `delivered`. It makes no other call.
  pub process_document_upload-IsUpload :
      (payload : Fields)
      → truthy (get "order_id" payload) ≡ true
      → truthy (get "image_url" payload) ≡ true
      → IsUpload
          (text_of python (get "order_id" payload))
          (is_str "pod" (get_or "document_type" (str "other") payload))
          (process_document_upload payload []).1
  unfolding process_document_upload
  process_document_upload-IsUpload payload order image = ground arith
