-- ===== src/Adb/Sms/Rows.antt =====
-- A row as `content query` prints it, and what parseRow of internal/adb/sms.go reads from it.
use abb_app.Base.{
  ℕ, ◌+◌, ◌-◌, ◌*◌, ◌≡◌, ◌∙◌, refl, sym, ap, true, false, ◌&&◌, some, [], ◌∷◌, ◌++◌, length,
  length-append, take, drop, leb, arith,
}
use mathlib.Core.List.{append_assoc}
use abb_app.Base.Text.{Text, codes, text_eq, has_prefix, is_digit, atoi}
use abb_app.Adb.Sms.{parsed, find_number, find_date, index_from, slice, find_sub_id, parse_row}
use abb_app.Adb.Sms.Dates.{find_date-append}
use abb_app.Adb.Sms.Search.{
  Digits, all_differ, find_number-first, sub_id-found, apart-Digits, find_sub_id-hit,
  find_sub_id-skip, index_from-skip,
}

drop-append : (s t : Text) → drop (length s) (s ++ t) ≡ t
drop-append [] t = refl
drop-append (c ∷ s) t = drop-append s t

take-append : (s t : Text) → take (length s) (s ++ t) ≡ s
take-append [] t = refl
take-append (c ∷ s) t = ap (λ (x : Text). c ∷ x) (take-append s t)

slice-mid :
    (pre mid post : Text)
    → slice (length pre) (length pre + length mid) (pre ++ (mid ++ post)) ≡ parsed mid
slice-mid pre mid post =
    let inside : (leb (length pre) (length pre + length mid)
          && leb (length pre + length mid) (length (pre ++ (mid ++ post))))
        ≡ true =
      ground (arith, length-append pre (mid ++ post), length-append mid post) in
    let width : length pre + length mid - length pre ≡ length mid = omega arith in
    rw (inside, width, drop-append pre (mid ++ post), take-append mid post) refl

-- The row as `content query` prints it.
abbrev pub printed_row : Text → Text → Text → Text → Text → Text
printed_row id sub address body date =
    codes "_id="
    ++ (id
        ++ (codes ", subscription_id="
            ++ (sub
                ++ (codes ", address="
                    ++ (address ++ (codes ", body=" ++ (body ++ (codes ", date=" ++ date))))))))

module _ (i : ℕ) (is : Text) (d : ℕ) (ds : Text) (digits_id : Digits (i ∷ is))
    (digits_sub : Digits (d ∷ ds)) where
  sub_id-row :
      (rest : Text)
      → find_sub_id (
          codes "_id="
          ++ (i ∷ is ++ (codes ", subscription_id=" ++ (d ∷ ds ++ (codes ", " ++ rest)))))
        ≡ d ∷ ds
  sub_id-row rest =
      find_sub_id-skip (codes "_id=") _ refl
      ∙ find_sub_id-skip (i ∷ is) _ (unfold is_digit in apart-Digits 115 (i ∷ is) refl digits_id)
      ∙ find_sub_id-skip (codes ", ") _ refl
      ∙ find_sub_id-hit _ 115 (d ∷ ds) (sub_id-found d ds (32 ∷ rest) digits_sub)

  address-row :
      (rest : Text)
      → index_from 0
          (codes "_id="
            ++ (i ∷ is ++ (codes ", subscription_id=" ++ (d ∷ ds ++ (codes ", address=" ++ rest)))))
          (codes "address=")
        ≡ some (4 + length (i ∷ is) + 18 + length (d ∷ ds) + 2)
  unfolding index_from has_prefix
  address-row rest =
      let t4 : Text = codes ", address=" ++ rest in
      let t3 : Text = d ∷ ds ++ t4 in
      let t2 : Text = codes ", subscription_id=" ++ t3 in
      let n : ℕ = 4 + length (i ∷ is) in
      let tag = codes "ddress=" in
      index_from-skip 0 97 tag (codes "_id=") (i ∷ is ++ t2) refl
      ∙ index_from-skip 4 97 tag (i ∷ is) t2
          (unfold is_digit in apart-Digits 97 (i ∷ is) refl digits_id)
      ∙ index_from-skip n 97 tag (codes ", subscription_id=") t3 refl
      ∙ index_from-skip (n + 18) 97 tag (d ∷ ds) t4
          (unfold is_digit in apart-Digits 97 (d ∷ ds) refl digits_sub)
      ∙ index_from-skip (n + 18 + length (d ∷ ds)) 97 tag (codes ", ") (codes "address=" ++ rest)
          refl

  body-row :
      (address rest : Text)
      → all_differ 44 address ≡ true
      → index_from 0
          (codes "_id="
            ++ (i ∷ is
                ++ (codes ", subscription_id="
                    ++ (d ∷ ds ++ (codes ", address=" ++ (address ++ (codes ", body=" ++ rest)))))))
          (codes ", body=")
        ≡ some (4 + length (i ∷ is) + 1 + 17 + length (d ∷ ds) + 1 + 9 + length address)
  unfolding index_from has_prefix
  body-row address rest plain =
      let t6 : Text = codes ", body=" ++ rest in
      let t5 : Text = address ++ t6 in
      let t4 : Text = codes ", address=" ++ t5 in
      let t3 : Text = d ∷ ds ++ t4 in
      let t2 : Text = codes ", subscription_id=" ++ t3 in
      let n : ℕ = 4 + length (i ∷ is) in
      let m : ℕ = n + 1 + 17 + length (d ∷ ds) in
      let tag = codes " body=" in
      index_from-skip 0 44 tag (codes "_id=") (i ∷ is ++ t2) refl
      ∙ index_from-skip 4 44 tag (i ∷ is) t2
          (unfold is_digit in apart-Digits 44 (i ∷ is) refl digits_id)
      ∙ index_from-skip (n + 1) 44 tag (codes " subscription_id=") t3 refl
      ∙ index_from-skip (n + 1 + 17) 44 tag (d ∷ ds) t4
          (unfold is_digit in apart-Digits 44 (d ∷ ds) refl digits_sub)
      ∙ index_from-skip (m + 1) 44 tag (codes " address=") t5 refl
      ∙ index_from-skip (m + 1 + 9) 44 tag address t6 plain

slice-at :
    (lo hi : ℕ) (row pre mid post : Text)
    → row ≡ pre ++ (mid ++ post)
    → lo ≡ length pre
    → hi ≡ length pre + length mid
    → slice lo hi row ≡ parsed mid
slice-at lo hi row pre mid post e l h = rw (e, l, h) (slice-mid pre mid post)

regroup3 : (a b c x : Text) → a ++ (b ++ (c ++ x)) ≡ (a ++ (b ++ c)) ++ x
regroup3 a b c x =
    ap (λ (y : Text). a ++ y) (sym (append_assoc b c x)) ∙ sym (append_assoc a (b ++ c) x)

regroup5 :
    (a b c d e x : Text) → a ++ (b ++ (c ++ (d ++ (e ++ x)))) ≡ (a ++ (b ++ (c ++ (d ++ e)))) ++ x
regroup5 a b c d e x =
    ap (λ (y : Text). a ++ (b ++ y)) (regroup3 c d e x) ∙ regroup3 a b (c ++ (d ++ e)) x

length5 :
    (a b c d e : Text)
    → length (a ++ (b ++ (c ++ (d ++ e)))) ≡ length a + length b + length c + length d + length e
length5 a b c d e = omega (
  arith,
  length-append a (b ++ (c ++ (d ++ e))),
  length-append b (c ++ (d ++ e)),
  length-append c (d ++ e),
  length-append d e,
)

parse_row-steps :
    (row id digits address body : Text) (at_date at_address at_body : ℕ)
    → find_number (codes "_id=") row ≡ some id
    → find_date 0 row ≡ some (at_date, digits)
    → index_from 0 row (codes "address=") ≡ some at_address
    → index_from 0 row (codes ", body=") ≡ some at_body
    → slice (at_address + 8) at_body row ≡ parsed address
    → slice (at_body + 7) at_date row ≡ parsed body
    → parse_row row
      ≡ parsed (record {
        android_id = id;
        subscription_id = find_sub_id row;
        address = address;
        body = body;
        translation = [];
        device_name = [];
        sim_name = [];
        source = [];
        recipient = [];
        received_at = atoi digits * 1_000_000;
      })
unfolding parse_row
parse_row-steps row id digits address body at_date at_address at_body h1 h2 h3 h4 h5 h6 =
    rw (h1, h2, h3, h4, h5, h6) refl

-- parseRow reads back what `content query` prints for an SMS with a subscription id, whatever its body
-- is, line breaks, commas and text like that of another column included, if its ids and its date are
-- digits and its address has no comma.
pub parse_row-printed_row :
    (i : ℕ) (is : Text) (d : ℕ) (ds address body date : Text)
    → Digits (i ∷ is)
    → Digits (d ∷ ds)
    → all_differ 44 address ≡ true
    → Digits date
    → text_eq date [] ≡ false
    → parse_row (printed_row (i ∷ is) (d ∷ ds) address body date)
      ≡ parsed (record {
        android_id = i ∷ is;
        subscription_id = d ∷ ds;
        address = address;
        body = body;
        translation = [];
        device_name = [];
        sim_name = [];
        source = [];
        recipient = [];
        received_at = atoi date * 1_000_000;
      })
parse_row-printed_row i is d ds address body date digits_id digits_sub plain digits_date filled =
    let row = printed_row (i ∷ is) (d ∷ ds) address body date in
    let id : Text = i ∷ is in
    let sub : Text = d ∷ ds in
    let t8 : Text = codes ", date=" ++ date in
    let t6 : Text = codes ", body=" ++ (body ++ t8) in
    let t4 : Text = codes ", address=" ++ (address ++ t6) in
    let front =
      codes "_id=" ++ (id ++ (codes ", subscription_id=" ++ (sub ++ codes ", address="))) in
    let head : row ≡ front ++ (address ++ t6) =
      regroup5 (codes "_id=") id (codes ", subscription_id=") sub (codes ", address=")
        (address ++ t6) in
    let middle : row ≡ (front ++ (address ++ codes ", body=")) ++ (body ++ t8) =
      head ∙ regroup3 front address (codes ", body=") (body ++ t8) in
    let whole : row ≡ ((front ++ (address ++ codes ", body=")) ++ body) ++ t8 =
      middle ∙ sym (append_assoc (front ++ (address ++ codes ", body=")) body t8) in
    let size = length5 (codes "_id=") id (codes ", subscription_id=") sub (codes ", address=") in
    let size2 : length (front ++ (address ++ codes ", body="))
        ≡ length front + (length address + 7) =
      omega (
        arith,
        length-append front (address ++ codes ", body="),
        length-append address (codes ", body="),
      ) in
    let before = (front ++ (address ++ codes ", body=")) ++ body in
    let size3 : length before ≡ length (front ++ (address ++ codes ", body=")) + length body =
      length-append (front ++ (address ++ codes ", body=")) body in
    let at_address : ℕ = 4 + length id + 18 + length sub + 2 in
    let at_body : ℕ = 4 + length id + 1 + 17 + length sub + 1 + 9 + length address in
    parse_row-steps row id date address body (0 + length before) at_address at_body
      (find_number-first i is (32 ∷ (codes "subscription_id=" ++ (sub ++ t4))) digits_id)
      (ap (find_date 0) whole ∙ find_date-append 0 before date digits_date filled)
      (address-row i is d ds digits_id digits_sub (address ++ t6))
      (body-row i is d ds digits_id digits_sub address (body ++ t8) plain)
      (slice-at (at_address + 8) at_body row front address t6 head (omega (arith, size))
        (omega (arith, size)))
      (slice-at (at_body + 7) (0 + length before) row (front ++ (address ++ codes ", body=")) body
        t8 middle (omega (arith, size, size2)) (omega (arith, size3)))
    ∙ ap
        (λ (s : Text). parsed (record {
          android_id = id;
          subscription_id = s;
          address = address;
          body = body;
          translation = [];
          device_name = [];
          sim_name = [];
          source = [];
          recipient = [];
          received_at = atoi date * 1_000_000;
        }))
        (sub_id-row i is d ds digits_id digits_sub (codes "address=" ++ (address ++ t6)))
