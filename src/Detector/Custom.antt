-- ===== src/Detector/Custom.antt =====
-- pkg/anomalydetector/custom.go: the pods that an external service reports. The request, the reading of
-- its answer and the decoding are parameters.
use kubervisor.Prelude.{
  ℕ, ◌≡◌, refl, arith, not, ◌==◌, List, String, Outcome, ok, err, Bool-cases, inl, inr, errorf,
  wrapping, ◌↔◌, bind_inv, wrapping_inv, if◌then◌else◌, ◌>>=◌,
}
use Prim.Native.String.{◌++◌}
use kubervisor.Kube.{Pod}

-- The answer of the service: its code, and the body, which may fail to be read.
pub record Response (B : Type 0) : Type 0 where
  pub status_code : ℕ
  pub body : Outcome B

module _ {B : Type 0} (get : String → Outcome (Response B)) (decode : B → Outcome (List Pod)) where
  -- The reading and the decoding of a body.
  unfoldable pub decode_body : Outcome B → Outcome (List Pod)
  decode_body body = do
    body_bytes ← wrapping "can't read response buffer" body
    wrapping "decoding custom server response failed" (decode body_bytes)

  -- What follows an answer.
  unfoldable pub read_response : Response B → Outcome (List Pod)
  unfolding decode_body
  read_response response =
      if not (response.status_code == 200)
      then err (errorf "the custom did not respond Ok (200)")
      else decode_body response.body

  unfoldable pub get_custom_pods_out_of_bounds : String → Outcome (List Pod)
  unfolding read_response
  get_custom_pods_out_of_bounds service_uri = do
    response ← wrapping "Error while contacting custom server" (get ("http://" ++ service_uri))
    read_response response

  -- How a service answers with pods: with the code 200 and a body that decodes to them.
  pub record Answers (service_uri : String) (pods : List Pod) : Type 0 where
    pub response : Response B
    pub body_bytes : B
    pub got : get ("http://" ++ service_uri) ≡ ok response
    pub accepted : response.status_code ≡ 200
    pub was_read : response.body ≡ ok body_bytes
    pub decoded : decode body_bytes ≡ ok pods

  decode_body_inv :
      (body : Outcome B) (pods : List Pod)
      → decode_body body ≡ ok pods
      → (body_bytes : B) × (body ≡ ok body_bytes) × (decode body_bytes ≡ ok pods)
  unfolding decode_body
  decode_body_inv body pods h =
      let (bytes, was_read, rest) =
        bind_inv (wrapping "can't read response buffer" body)
          (λ b. wrapping "decoding custom server response failed" (decode b)) pods h in
      (
        bytes,
        wrapping_inv "can't read response buffer" body bytes was_read,
        wrapping_inv "decoding custom server response failed" (decode bytes) pods rest,
      )

  read_response_inv :
      (response : Response B) (pods : List Pod)
      → read_response response ≡ ok pods
      → (response.status_code ≡ 200) × (decode_body response.body ≡ ok pods)
  unfolding read_response
  read_response_inv response pods h = elim (Bool-cases (response.status_code == 200)) [
    | inr e ↦ absurd (ground (arith, e, rw (read_response, e) at h))
    | inl e ↦ (ground (arith, e), rw (read_response, e) at h)
  ]

  -- The detector reports pods exactly if the service answers the request with the code 200 and a body
  -- that can be read and decodes to them.
  pub get_custom_pods_out_of_bounds_iff :
      (service_uri : String) (pods : List Pod)
      → (get_custom_pods_out_of_bounds service_uri ≡ ok pods) ↔ Answers service_uri pods
  unfolding get_custom_pods_out_of_bounds
  get_custom_pods_out_of_bounds_iff service_uri pods = (sound, complete)
    where
      sound : get_custom_pods_out_of_bounds service_uri ≡ ok pods → Answers service_uri pods
      sound h =
          let (response, answered, rest) =
            bind_inv
              (wrapping "Error while contacting custom server" (get ("http://" ++ service_uri)))
              read_response pods h in
          let (status, body) = read_response_inv response pods rest in
          let (bytes, was_read, decoded) = decode_body_inv response.body pods body in
          record {
            response = response;
            body_bytes = bytes;
            got = wrapping_inv "Error while contacting custom server" _ response answered;
            accepted = status;
            was_read = was_read;
            decoded = decoded;
          }

      complete : Answers service_uri pods → get_custom_pods_out_of_bounds service_uri ≡ ok pods
      complete a = rw (a.got, a.accepted, a.was_read, a.decoded) refl
