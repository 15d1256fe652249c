-- ===== src/Translation/Examples.antt =====
-- Runs of the normalizer and the segmenter.
use truyenaudio_studio.Prelude.{◌≡◌, refl, List, [], ◌∷◌, arith, All, count_where}
use truyenaudio_studio.Prelude.Lists.{length}
use truyenaudio_studio.Translation.Text.{Text, is_space, has_text, is_han}
use truyenaudio_studio.Translation.Segmenter.{
  SegmentDraft, long_sentence_split, units_for_source, paragraphs_from, sentences_from,
  is_sentence_ending, is_close_quote, is_open_quote, split_from, take, best_from,
  is_long_split_mark, drop,
}
use truyenaudio_studio.Translation.Pack.{ok, segment_source, pack_from}
use truyenaudio_studio.Translation.Pack.Segments.{
  IsWithin, InOrder, joined, segments-IsWithin, segments-InOrder,
}
use truyenaudio_studio.Translation.Normalize.{
  normalize_source, strip_right, strip_left, join_lines, limit_blank_lines, split_lines, replace_cr,
  replace_crlf, rstrip,
}
use truyenaudio_studio.Translation.Normalize.Tidied.{normalize_source-segments}

-- Two sentences with a line end of Windows, then a paragraph after three line ends, with spaces behind.
abbrev raw_chapter : Text
raw_chapter =
    19968 ∷ 19969 ∷ 12290 ∷ 19970 ∷ 65281 ∷ 32 ∷ 13 ∷ 10 ∷ 10 ∷ 13 ∷ 19971 ∷ 19972 ∷ 19973 ∷ 19974
    ∷ 19975 ∷ 32 ∷ 10 ∷ []

abbrev small_text : Text
small_text = 19968 ∷ 12290 ∷ 19969 ∷ 65292 ∷ 19970 ∷ 19971 ∷ 10 ∷ 19972 ∷ []

abbrev small_segments : List SegmentDraft
small_segments =
    record {
      segment_index = 0;
      paragraph_start = 0;
      paragraph_end = 0;
      source_text = 19968 ∷ 12290 ∷ 19969 ∷ 65292 ∷ [];
      source_sha256 = 4;
      segment_kind = long_sentence_split;
    }
    ∷ record {
      segment_index = 1;
      paragraph_start = 0;
      paragraph_end = 0;
      source_text = 19970 ∷ 19971 ∷ [];
      source_sha256 = 2;
      segment_kind = long_sentence_split;
    }
    ∷ record {
      segment_index = 2;
      paragraph_start = 0;
      paragraph_end = 0;
      source_text = 10 ∷ 19972 ∷ [];
      source_sha256 = 2;
      segment_kind = long_sentence_split;
    }
    ∷ []

normalized_chapter :
    (normalize_source (λ t. t) length raw_chapter).text
    ≡ 19968 ∷ 19969 ∷ 12290 ∷ 19970 ∷ 65281 ∷ 10 ∷ 10 ∷ 10 ∷ 19971 ∷ 19972 ∷ 19973 ∷ 19974 ∷ 19975
      ∷ []
unfolding normalize_source strip_right strip_left join_lines limit_blank_lines split_lines
    replace_cr replace_crlf rstrip is_space
normalized_chapter = refl

normalize_source-segments_example :
    joined (segment_source length 1 2 3 ((normalize_source (λ t. t) length raw_chapter).text))
    ≡ ok ((normalize_source (λ t. t) length raw_chapter).text)
normalize_source-segments_example =
    normalize_source-segments (λ t. t) length 1 2 3 raw_chapter (omega arith) (omega arith)
      (omega arith)

small_run : segment_source length 1 2 2 small_text ≡ ok small_segments
unfolding segment_source pack_from units_for_source paragraphs_from sentences_from
    is_sentence_ending is_close_quote is_open_quote has_text is_space count_where is_han split_from
    take best_from is_long_split_mark drop
small_run = refl

segments-IsWithin_example : All (IsWithin 2) small_segments
segments-IsWithin_example = segments-IsWithin length 1 2 2 small_text small_segments small_run

segments-InOrder_example : InOrder 0 0 small_segments
segments-InOrder_example = segments-InOrder length 1 2 2 small_text small_segments small_run
