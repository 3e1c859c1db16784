-- ===== src/Common/Filter/Laws.antt =====
-- What the clients of the API can rely on in an error response.
use recruitment_platform_be.Prelude.{◌<◌, ◌≡◌, ◌≢◌, ◌⊎◌, arith}
use recruitment_platform_be.Common.Exceptions.{Category, DomainException}
use recruitment_platform_be.Common.Filter.{domain_exception, catch}

-- A domain exception of any category but that of an external service answers with a status below
-- 500 and keeps its own code and message; one of an external service answers 503 and loses both.
pub catch-domain_exception :
    (e : DomainException)
    → ((e.category ≢ Category.external_service)
        × ((catch (domain_exception e)).status < 500)
        × ((catch (domain_exception e)).code ≡ e.code)
        × ((catch (domain_exception e)).message ≡ e.message))
      ⊎ ((e.category ≡ Category.external_service)
          × ((catch (domain_exception e)).status ≡ 503)
          × ((catch (domain_exception e)).code ≡ "INTERNAL_SERVER_ERROR")
          × ((catch (domain_exception e)).message ≡ "Internal server error"))
unfolding catch
catch-domain_exception e = ground arith
