-- ===== src/Tests/Memory/Ui.antt =====
-- The client's theorems with a server that loses its first answer.
use Prim.Native.Nat.{ℕ, ◌+◌, ◌<◌}
use atlas_idp.Common.{◌≡◌, ◌↔◌, refl, none, some, ok, err, if◌then◌else◌, ◌==◌}
use atlas_idp.Seal.Ui.{Backend, post, HttpResponse, do_request, create_document}
use atlas_idp.Seal.Ui.{download, get_download_url, do_request_from}
use atlas_idp.Seal.Ui.Pages.{download_answer, download-redirects}
use atlas_idp.Seal.Ui.Retry.{answer, settled, or_else, do_request_first, create_document-repeats}

abbrev made : HttpResponse
made = record { status_code = 201; content = "i" }

-- The world counts the requests, each of which creates a document; the first answer is lost.
abbrev losing : Backend
losing = record {
  World = ℕ;
  bad_request = λ m url. none;
  send = λ m url body n. (if n == 0 then err "reset" else ok made, n + 1);
  sleep = λ ms n. (tt, n);
  encode_text = λ text. text;
  decode_created = λ text. ok text;
  decode_document = λ text. err "no document";
  decode_url = λ text. err "no address";
  decode_verify = λ text. err "no answer";
  render_status = λ id. ok id;
  render_pending = λ id. ok id;
  render_download = λ id state. ok id;
}

do_request_first_example :
    (((do_request losing "http://api" post "/x" none 0).0 ≡ ok made) ↔ (
      or_else losing "http://api" post "/x" none
        (settled losing "http://api" post "/x" none (answer losing "http://api" post "/x" none 0 0))
        (or_else losing "http://api" post "/x" none
          (settled losing "http://api" post "/x" none
            (answer losing "http://api" post "/x" none 1 0))
          (settled losing "http://api" post "/x" none
            (answer losing "http://api" post "/x" none 2 0)))
      ≡ some made))
    × ((do_request losing "http://api" post "/x" none 0).0 ≡ ok made → 201 < 500)
do_request_first_example = do_request_first losing "http://api" post "/x" none 0 made refl

create_document-repeats_example : (create_document losing "http://api" "hello" 0).1 ≡ 2
create_document-repeats_example =
    create_document-repeats losing "http://api" "hello" 0 "reset" made (λ n. n) refl (λ u. refl)
      (λ n u. refl) refl refl refl

abbrev address : HttpResponse
address = record { status_code = 200; content = "http://s3/x" }

-- every request is answered with an address
abbrev serving : Backend
serving = record losing { send = λ m url body n. (ok address, n); decode_url = λ text. ok text }

download-redirects_example :
    (◌≡◌ {A = ℕ} 303 303)
    × (resp : HttpResponse) × (download_answer serving "http://api" "i" 0 ≡ ok resp)
    × (resp.status_code ≡ 200)
    × (serving.decode_url resp.content ≡ ok "http://s3/x")
unfolding download get_download_url do_request do_request_from
download-redirects_example = download-redirects serving "http://api" "i" "http://s3/x" 303 0 refl
